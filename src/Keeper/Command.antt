-- ===== src/Keeper/Command.antt =====
-- The keeper's command (cmd/keeper/main.go): the backend, the TLS configuration, the listener and
-- the server. The calls that open and close something are a list, in their order; what the server
-- returns is a parameter. Log records are not modelled, nor are the results of the closing calls,
-- which are only logged.
pub mod Balanced
pub mod Serves
use chur.Base.{
  ℕ, Bool, true, false, Option, none, some, List, [], ◌∷◌, ◌++◌, map, if◌then◌else◌, Result, ok,
  err,
}
use chur.Base.Int.{ℤ}
use chur.Text.{Text, bytes, is_empty, text_eq}
use chur.Keeper.Config.{Config, config_from_env}
use chur.Keeper.Exec.{new_backend}
use chur.Keeper.HttpBackend.{HttpBackend, new_http_backend}
use chur.Keeper.ServerTls.{ServerTlsError, ServerTls, cleaned, keeper_tls_config}
use chur.Providers.{ProviderError, FsBackend, new_with_max_size}
use chur.Tls.{TlsConfig, Crypto}
use chur.Tls.SelfSigned.{CertLib, CertOp, TempFiles}

-- The backend that was chosen, with what its constructor was given.
pub data Backend : Type 0 where
  filesystem_backend : FsBackend → Backend
  exec_backend : Text → ℤ → ℤ → Backend
  http_backend : HttpBackend → Backend

pub data Op : Type 0 where
  root_opened root_closed listened listener_closed : Op
  cert_op : CertOp → Op

-- The calls of other libraries: the files, url.Parse, net.Listen, and Serve's result.
pub record World (E C P : Type 0) : Type 0 where
  pub getenv : Text → Text
  pub read_file : Text → Result E Text
  pub stat : Text → Option E
  pub open_root : Text → Option E
  pub parse_url : Text → Result E (Text × Text)
  pub listen : Text → Option E
  pub serve : Config → Backend → TlsConfig C P → Option E

-- The exit code, and the calls.
abbrev pub Exit : Type 0
Exit = ℕ × List Op

-- An error ends run with the code 1.
unfoldable pub failed : Exit
failed = (1, [])

-- The deferred Close of the root.
unfoldable pub in_root : Exit → Exit
in_root (code, ops) = (code, root_opened ∷ (ops ++ root_closed ∷ []))

unfoldable pub exit_code : {E : Type 0} → Option E → ℕ
exit_code none = 0
exit_code (some e) = 1

module _ {E C P K : Type 0} (crypto : Crypto E C P) (lib : CertLib E K) (files : TempFiles E)
    (w : World E C P) where
  -- The listener, if it could be made, and the server; the listener is closed at the end.
  unfoldable pub listen_then : Option E → Config → Backend → TlsConfig C P → Exit
  unfolding failed exit_code
  listen_then (some e) cfg b c = failed
  listen_then none cfg b c = (exit_code (w.serve cfg b c), listened ∷ listener_closed ∷ [])

  -- The TLS configuration; its deferred cleanup runs after the listener is closed.
  unfoldable pub tls_then :
      Config → Backend → Result (ServerTlsError E) (ServerTls C P) × List CertOp → Exit
  unfolding listen_then cleaned
  tls_then cfg b (err e, ops) = (1, map cert_op ops)
  tls_then cfg b (ok s, ops) =
      let (code, rest) = listen_then (w.listen cfg.listen) cfg b s.config in
      (code, map cert_op ops ++ (rest ++ map cert_op (cleaned s.cleanup)))

  unfoldable pub with_backend : Config → Backend → Exit
  unfolding tls_then
  with_backend cfg b = tls_then cfg b (keeper_tls_config crypto lib files w.getenv w.read_file cfg)

  unfoldable pub filesystem_then : Config → Result (ProviderError E) FsBackend → Exit
  unfolding with_backend failed in_root
  filesystem_then cfg (err e) = failed
  filesystem_then cfg (ok b) = in_root (with_backend cfg (filesystem_backend b))

  unfoldable pub exec_then : {F : Type 0} → Config → Option E → Result F ℤ → Exit
  unfolding with_backend failed
  exec_then cfg (some e) made = failed
  exec_then cfg none (err e) = failed
  exec_then cfg none (ok max_stdout) =
      with_backend cfg (exec_backend cfg.exec_command cfg.exec_timeout max_stdout)

  unfoldable pub http_then : {F : Type 0} → Config → Result F HttpBackend → Exit
  unfolding with_backend failed
  http_then cfg (err e) = failed
  http_then cfg (ok b) = with_backend cfg (http_backend b)

  -- The backend's type is the configured one.
  unfoldable pub run_with : Config → Exit
  unfolding filesystem_then exec_then http_then failed
  run_with cfg =
      if text_eq cfg.backend_type (bytes "filesystem")
      then filesystem_then cfg
          (new_with_max_size (w.open_root cfg.fs_root) cfg.fs_root cfg.max_secret_size)
      else if text_eq cfg.backend_type (bytes "exec")
      then (if is_empty cfg.exec_command
          then failed
          else exec_then cfg (w.stat cfg.exec_command) (new_backend {E = E} cfg.exec_max_stdout))
      else if text_eq cfg.backend_type (bytes "http")
      then (if is_empty cfg.http_url
          then failed
          else http_then cfg (
              new_http_backend w.parse_url w.read_file cfg.http_url cfg.http_token_file
                cfg.http_timeout cfg.max_secret_size))
      else failed

  unfoldable pub run_config : {F : Type 0} → Result F Config → Exit
  unfolding run_with failed
  run_config (err e) = failed
  run_config (ok cfg) = run_with cfg

  -- run
  unfoldable pub run : Exit
  unfolding run_config
  run = run_config (config_from_env w.getenv)
