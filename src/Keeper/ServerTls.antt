-- ===== src/Keeper/ServerTls.antt =====
-- The keeper's ServerTLSConfig (internal/keeper/server.go). The cleanup that it returns is the
-- directory that it removes, if there is one; the two modes are the only ones that a configuration
-- from the environment has.
pub mod Cleaned
use chur.Base.{
  Bool, true, false, ◌||◌, Option, none, some, List, [], ◌∷◌, ◌++◌, if◌then◌else◌, Result, ok, err,
}
use chur.Text.{Text, bytes, is_empty}
use chur.Tls.{TlsConfig, TlsError, Crypto, server_tls_config}
use chur.Tls.SelfSigned.{
  CertLib, CertOp, remove_all, CertError, TempFiles, CertPaths, generate_temp_cert,
}
use chur.Keeper.Config.{TlsMode, self_signed, mtls, Config, value_or}

pub data ServerTlsError (E : Type 0) : Type 0 where
  not_generated : CertError E → ServerTlsError E
  bad_config : TlsError E → ServerTlsError E
  no_client_ca_path no_cert_path : ServerTlsError E
  client_ca_unread : E → ServerTlsError E

pub record ServerTls (C P : Type 0) : Type 0 where
  pub config : TlsConfig C P
  pub cleanup : Option Text

-- The certificate and its key to load, and the cleanup.
pub record OwnPair : Type 0 where
  pub cert_file : Text
  pub key_file : Text
  pub cleanup : Option Text

-- The calls of a cleanup.
unfoldable pub cleaned : Option Text → List CertOp
cleaned none = []
cleaned (some dir) = remove_all dir ∷ []

unfoldable pub generated :
    {E : Type 0} → Result (CertError E) CertPaths → Result (ServerTlsError E) OwnPair
generated (err e) = err (not_generated e)
generated (ok p) =
    ok (record { cert_file = p.cert_file; key_file = p.key_file; cleanup = some p.dir })

module _ {E C P : Type 0} (crypto : Crypto E C P) where
  -- A configuration that could not be loaded removes what was generated for it.
  unfoldable pub loaded_config :
      Option Text
      → List CertOp
      → Result (TlsError E) (TlsConfig C P)
      → Result (ServerTlsError E) (ServerTls C P) × List CertOp
  unfolding cleaned
  loaded_config cleanup ops (ok c) = (ok (record { config = c; cleanup = cleanup }), ops)
  loaded_config cleanup ops (err e) = (err (bad_config e), ops ++ cleaned cleanup)

  unfoldable pub with_pair :
      Result (ServerTlsError E) OwnPair
      → List CertOp
      → Result (ServerTlsError E) (ServerTls C P) × List CertOp
  unfolding loaded_config
  with_pair (err e) ops = (err e, ops)
  with_pair (ok p) ops =
      loaded_config p.cleanup ops (server_tls_config crypto [] p.cert_file p.key_file)

  -- The case of self-signed: a certificate is generated unless both paths are set.
  unfoldable pub self_signed_config :
      {K : Type 0}
      → CertLib E K
      → TempFiles E
      → (Text → Text)
      → Config
      → Result (ServerTlsError E) (ServerTls C P) × List CertOp
  unfolding with_pair generated value_or
  self_signed_config lib files getenv cfg =
      let (r, ops) =
        generate_temp_cert files lib
          (value_or (bytes "localhost") (getenv (bytes "CHUR_KEEPER_TLS_DNS_NAME"))) in
      if is_empty cfg.tls_cert_file || is_empty cfg.tls_key_file
      then with_pair (generated r) ops
      else with_pair
          (ok
            (record { cert_file = cfg.tls_cert_file; key_file = cfg.tls_key_file; cleanup = none }))
          []

  unfoldable pub with_ca_file :
      Config → Result E Text → Result (ServerTlsError E) (ServerTls C P) × List CertOp
  unfolding loaded_config
  with_ca_file cfg (err e) = (err (client_ca_unread e), [])
  with_ca_file cfg (ok pem) =
      loaded_config none [] (server_tls_config crypto pem cfg.tls_cert_file cfg.tls_key_file)

  -- The case of mtls.
  unfoldable pub mtls_config :
      (Text → Result E Text) → Config → Result (ServerTlsError E) (ServerTls C P) × List CertOp
  unfolding with_ca_file
  mtls_config read_file cfg =
      if is_empty cfg.client_ca_file
      then (err no_client_ca_path, [])
      else if is_empty cfg.tls_cert_file || is_empty cfg.tls_key_file
      then (err no_cert_path, [])
      else with_ca_file cfg (read_file cfg.client_ca_file)

  -- ServerTLSConfig: its result, and the calls on the file system that it made.
  unfoldable pub keeper_tls_config :
      {K : Type 0}
      → CertLib E K
      → TempFiles E
      → (Text → Text)
      → (Text → Result E Text)
      → Config
      → Result (ServerTlsError E) (ServerTls C P) × List CertOp
  unfolding self_signed_config mtls_config
  keeper_tls_config lib files getenv read_file cfg = elim cfg.tls_mode [
    | self_signed ↦ self_signed_config lib files getenv cfg
    | mtls ↦ mtls_config read_file cfg
  ]
