-- ===== src/Tls.antt =====
-- The TLS configurations of the servers (internal/tls/tls.go, internal/webhook/tls.go).
-- Keys, certificates and pools are the crypto library's: loading and parsing them are parameters.
pub mod Secure
pub mod SelfSigned
use chur.Base.{
  ℕ, Bool, true, false, not, Option, none, some, List, [], ◌∷◌, ◌++◌, if◌then◌else◌, Result, ok,
  err, ◌>>=◌, ◌>>◌,
}
use chur.Text.{Text, bytes, is_empty, text_eq}

pub data ClientAuth : Type 0 where
  no_client_cert require_and_verify_client_cert : ClientAuth

-- The fields of a crypto/tls.Config that the program sets.
pub record TlsConfig (C P : Type 0) : Type 0 where
  pub min_version : ℕ
  pub certificates : List C
  pub client_auth : ClientAuth
  pub client_cas : Option P

-- tls.VersionTLS13
abbrev pub version_tls13 : ℕ
version_tls13 = 0x0304

pub data TlsError (E : Type 0) : Type 0 where
  no_keypair : E → TlsError E
  bad_client_ca empty_client_ca : TlsError E
  bad_tls_mode : Text → TlsError E

-- The calls of the crypto library: a key pair from its two files, and a pool from PEM.
pub record Crypto (E C P : Type 0) : Type 0 where
  pub load_key_pair : Text → Text → Result E C
  pub parse_pool : Text → Option P

module _ {E C P : Type 0} (crypto : Crypto E C P) where
  -- ClientCAPool
  unfoldable pub client_ca_pool : Text → Result (TlsError E) P
  client_ca_pool pem = elim (crypto.parse_pool pem) [ none ↦ err bad_client_ca | some p ↦ ok p ]

  -- The client's part of ServerTLSConfig, for a server with this certificate.
  unfoldable pub with_client_ca : C → Text → Result (TlsError E) (TlsConfig C P)
  unfolding client_ca_pool
  with_client_ca cert client_ca =
      let verified : Result (TlsError E) (TlsConfig C P) = client_ca_pool client_ca >>= λ pool.
      ok (record {
        min_version = version_tls13;
        certificates = cert ∷ [];
        client_auth = require_and_verify_client_cert;
        client_cas = some pool;
      }) in
      if not (is_empty client_ca)
      then verified
      else ok (record {
        min_version = version_tls13;
        certificates = cert ∷ [];
        client_auth = no_client_cert;
        client_cas = none;
      })

  unfoldable pub load_pair : Text → Text → Result (TlsError E) C
  load_pair cert_file key_file = elim (crypto.load_key_pair cert_file key_file) [
    | ok c ↦ ok c
    | err e ↦ err (no_keypair e)
  ]

  -- ServerTLSConfig
  unfoldable pub server_tls_config : Text → Text → Text → Result (TlsError E) (TlsConfig C P)
  unfolding load_pair with_client_ca
  server_tls_config client_ca cert_file key_file =
      load_pair cert_file key_file >>= λ cert. with_client_ca cert client_ca

  -- The case mtls of the webhook's TLSConfig, for a CA that is not empty.
  unfoldable pub verified_config : Text → Result (TlsError E) (TlsConfig C P)
  unfolding client_ca_pool
  verified_config client_ca = client_ca_pool client_ca >>= λ pool. ok (record {
    min_version = version_tls13;
    certificates = [];
    client_auth = require_and_verify_client_cert;
    client_cas = some pool;
  })

  -- The webhook's TLSConfig: `mode` is the text of a TLSMode.
  unfoldable pub webhook_tls_config : Text → Text → Result (TlsError E) (TlsConfig C P)
  unfolding verified_config
  webhook_tls_config mode client_ca =
      if text_eq mode (bytes "server")
      then ok (record {
        min_version = version_tls13;
        certificates = [];
        client_auth = no_client_cert;
        client_cas = none;
      })
      else if text_eq mode (bytes "mtls")
      then (if is_empty client_ca then err empty_client_ca else verified_config client_ca)
      else err (bad_tls_mode mode)
