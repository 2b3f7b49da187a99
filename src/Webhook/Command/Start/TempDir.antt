-- ===== src/Webhook/Command/Start/TempDir.antt =====
-- What the webhook's command leaves on disk.
use chur.Base.{Bool-cases, Option, none, some, [], ◌∷◌, Result, ok, err, inl, inr, sym, subst}
use chur.Text.{Text, bytes, text_eq}
use chur.Tls.{TlsConfig, TlsError, Crypto, webhook_tls_config}
use chur.Tls.SelfSigned.{CertLib, CertError, TempFiles, CertPaths, Traced}
use chur.Tls.SelfSigned.Removed.{
  cert_write, key_write, IsTidy, not_made, removed, written, generate_temp_cert-IsTidy,
}
use chur.Keeper.ServerTls.Cleaned.{IsCleaned, untouched, undone}
use chur.Keeper.ServerTls.Cleaned
use chur.Webhook.Config.{Config}
use chur.Webhook.Command.{CommandError, command_config}
use chur.Webhook.Command.Start.{
  tls_mode_of, Node, Exit, exit_code, tls_mode_of, serve_generated, serve_with, tls_then,
  client_ca_of, ca_then, mode_then, listen_then, config_then, run,
}
use chur.Webhook.Command.Start

module _ {E C P K : Type 0} (crypto : Crypto E C P) (lib : CertLib E K) (files : TempFiles E)
    (node : Node E C P) where
  generated-IsCleaned :
      {pems : Result (CertError E) (Text × Text)} (cfg : Config) (c : TlsConfig C P)
      (t : Traced E CertPaths)
      → IsTidy files pems t
      → IsCleaned files.temp_dir none (serve_generated crypto lib files node cfg c t).1
  unfolding serve_generated
  generated-IsCleaned cfg c t (not_made x h q) =
      subst (λ t. IsCleaned files.temp_dir none (serve_generated crypto lib files node cfg c t).1)
        (sym q) (Cleaned.failed x h)
  generated-IsCleaned cfg c t (removed dir e ops h g q) =
      subst (λ t. IsCleaned files.temp_dir none (serve_generated crypto lib files node cfg c t).1)
        (sym q) (undone dir ops h)
  generated-IsCleaned cfg c t (written dir cert_pem key_pem h p q) =
      subst (λ t. IsCleaned files.temp_dir none (serve_generated crypto lib files node cfg c t).1)
        (sym q) (undone dir (cert_write dir cert_pem ∷ key_write dir key_pem ∷ []) h)

  serve_with-IsCleaned :
      (cfg : Config) (c : TlsConfig C P) (cert_file key_file : Text)
      → IsCleaned files.temp_dir none (serve_with crypto lib files node cfg c cert_file key_file).1
  unfolding serve_with Start.failed
  serve_with-IsCleaned cfg c cert_file key_file = elim (Bool-cases (node.not_exist cert_file)) [
    | inr n ↦ rw n untouched
    | inl n ↦
        rw n
          (elim (Bool-cases
            (text_eq (node.cluster.getenv (bytes "CHUR_TLS_AUTO_GENERATE")) (bytes "1"))) [
              | inl g ↦ rw g (generated-IsCleaned cfg c _ (generate_temp_cert-IsTidy files lib _))
              | inr g ↦ rw g untouched
            ])
  ]

  tls_then-IsCleaned :
      (cfg : Config) (r : Result (TlsError E) (TlsConfig C P))
      → IsCleaned files.temp_dir none (tls_then crypto lib files node cfg r).1
  unfolding tls_then Start.failed
  tls_then-IsCleaned cfg (err e) = untouched
  tls_then-IsCleaned cfg (ok c) = serve_with-IsCleaned cfg c _ _

  ca_then-IsCleaned :
      (cfg : Config) (mode : Text) (r : Result E Text)
      → IsCleaned files.temp_dir none (ca_then crypto lib files node cfg mode r).1
  unfolding ca_then Start.failed
  ca_then-IsCleaned cfg mode (err e) = untouched
  ca_then-IsCleaned cfg mode (ok pem) = tls_then-IsCleaned cfg (webhook_tls_config crypto mode pem)

  mode_then-IsCleaned :
      (cfg : Config) (o : Option Text)
      → IsCleaned files.temp_dir none (mode_then crypto lib files node cfg o).1
  unfolding mode_then Start.failed
  mode_then-IsCleaned cfg none = untouched
  mode_then-IsCleaned cfg (some mode) =
      ca_then-IsCleaned cfg mode (client_ca_of crypto lib files node mode)

  listen_then-IsCleaned :
      (cfg : Config) (o p : Option E)
      → IsCleaned files.temp_dir none (listen_then crypto lib files node cfg o p).1
  unfolding listen_then Start.failed
  listen_then-IsCleaned cfg (some e) p = untouched
  listen_then-IsCleaned cfg none (some e) = untouched
  listen_then-IsCleaned cfg none none =
      mode_then-IsCleaned cfg (tls_mode_of (node.cluster.getenv (bytes "CHUR_TLS_MODE")))

  config_then-IsCleaned :
      (r : Result CommandError Config)
      → IsCleaned files.temp_dir none (config_then crypto lib files node r).1
  unfolding config_then Start.failed
  config_then-IsCleaned (err e) = untouched
  config_then-IsCleaned (ok cfg) = listen_then-IsCleaned cfg (node.new_server cfg) _

  -- However the webhook's command ends, no temporary directory was made, or the last call is the
  -- removal of the one that MkdirTemp made.
  pub run-IsCleaned : IsCleaned files.temp_dir none (run crypto lib files node).1
  unfolding run
  run-IsCleaned = config_then-IsCleaned (command_config node.cluster)
