-- ===== src/Webhook/Command/Start.antt =====
-- The start of the webhook's command (cmd/webhook/main.go): its TLS configuration, its certificate
-- and its exit code. What the servers return, NewServer's registration of the Kubernetes types and
-- net.Listen are parameters.
pub mod Secured
pub mod TempDir
use chur.Base.{
  ℕ, Bool, true, false, Option, none, some, List, [], ◌∷◌, ◌++◌, if◌then◌else◌, Result, ok, err,
}
use chur.Text.{Text, bytes, is_empty, text_eq}
use chur.Tls.{TlsConfig, TlsError, Crypto, webhook_tls_config}
use chur.Tls.SelfSigned.{
  CertLib, CertOp, remove_all, CertError, TempFiles, CertPaths, Traced, generate_temp_cert,
}
use chur.Webhook.Config.{Config}
use chur.Webhook.Command.{CommandError, Cluster, first_non_empty, command_config}

-- What surrounds the command. `not_exist` is whether os.Stat says that a file does not exist.
pub record Node (E C P : Type 0) : Type 0 where
  pub cluster : Cluster
  pub new_server : Config → Option E
  pub listen : Text → Option E
  pub read_file : Text → Result E Text
  pub not_exist : Text → Bool
  pub serve : Config → TlsConfig C P → Text → Text → Option E

abbrev pub Exit : Type 0
Exit = ℕ × List CertOp

unfoldable pub failed : Exit
failed = (1, [])

unfoldable pub exit_code : {E : Type 0} → Option E → ℕ
exit_code none = 0
exit_code (some e) = 1

-- The TLSMode of CHUR_TLS_MODE.
unfoldable pub tls_mode_of : Text → Option Text
tls_mode_of v =
    if text_eq v (bytes "mtls")
    then some (bytes "mtls")
    else if text_eq v (bytes "server")
    then some (bytes "server")
    else if is_empty v
    then some (bytes "server")
    else none

module _ {E C P K : Type 0} (crypto : Crypto E C P) (lib : CertLib E K) (files : TempFiles E)
    (node : Node E C P) where
  abbrev pub getenv : Text → Text
  getenv = node.cluster.getenv

  -- A generated certificate, whose directory is removed at the end.
  unfoldable pub serve_generated : Config → TlsConfig C P → Traced E CertPaths → Exit
  unfolding exit_code
  serve_generated cfg c (err e, ops) = (1, ops)
  serve_generated cfg c (ok p, ops) =
      (exit_code (node.serve cfg c p.cert_file p.key_file), ops ++ remove_all p.dir ∷ [])

  unfoldable pub serve_with : Config → TlsConfig C P → Text → Text → Exit
  unfolding serve_generated failed exit_code first_non_empty
  serve_with cfg c cert_file key_file =
      let host = first_non_empty (getenv (bytes "CHUR_TLS_DNS_NAME")) (bytes "localhost") in
      if node.not_exist cert_file
      then (if text_eq (getenv (bytes "CHUR_TLS_AUTO_GENERATE")) (bytes "1")
          then serve_generated cfg c (generate_temp_cert files lib host)
          else failed)
      else (exit_code (node.serve cfg c cert_file key_file), [])

  unfoldable pub tls_then : Config → Result (TlsError E) (TlsConfig C P) → Exit
  unfolding serve_with failed
  tls_then cfg (err e) = failed
  tls_then cfg (ok c) =
      serve_with cfg c
        (first_non_empty (getenv (bytes "CHUR_TLS_CERT_PATH")) (bytes "/etc/chur/tls/tls.crt"))
        (first_non_empty (getenv (bytes "CHUR_TLS_KEY_PATH")) (bytes "/etc/chur/tls/tls.key"))

  -- The client CA is read in the mode mtls.
  unfoldable pub client_ca_of : Text → Result E Text
  client_ca_of mode =
      if text_eq mode (bytes "mtls")
      then node.read_file
          (first_non_empty (getenv (bytes "CHUR_CLIENT_CA_PATH")) (bytes "/etc/chur/ca.crt"))
      else ok []

  unfoldable pub ca_then : Config → Text → Result E Text → Exit
  unfolding tls_then failed
  ca_then cfg mode (err e) = failed
  ca_then cfg mode (ok pem) = tls_then cfg (webhook_tls_config crypto mode pem)

  unfoldable pub mode_then : Config → Option Text → Exit
  unfolding ca_then client_ca_of failed
  mode_then cfg none = failed
  mode_then cfg (some mode) = ca_then cfg mode (client_ca_of mode)

  -- The rest of run, by the results of NewServer and of net.Listen.
  unfoldable pub listen_then : Config → Option E → Option E → Exit
  unfolding mode_then tls_mode_of failed
  listen_then cfg (some e) listening = failed
  listen_then cfg none (some e) = failed
  listen_then cfg none none = mode_then cfg (tls_mode_of (getenv (bytes "CHUR_TLS_MODE")))

  unfoldable pub config_then : Result CommandError Config → Exit
  unfolding listen_then failed
  config_then (err e) = failed
  config_then (ok cfg) =
      listen_then cfg (node.new_server cfg)
        (node.listen (first_non_empty (getenv (bytes "CHUR_LISTEN")) (bytes ":8443")))

  -- run
  unfoldable pub run : Exit
  unfolding config_then
  run = config_then (command_config node.cluster)
