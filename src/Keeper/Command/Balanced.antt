-- ===== src/Keeper/Command/Balanced.antt =====
-- What the keeper's command closes again, and when it exits with 0.
use chur.Base.{
  Bool-cases, Option, none, some, List, [], ◌∷◌, ◌++◌, map, append-nil, if◌then◌else◌, Result, ok,
  err, inl, inr, subst,
}
use chur.Base.Int.{ℤ}
use chur.Text.{Text, bytes, is_empty, text_eq}
use chur.Keeper.Config.{Config, ConfigError, config_from_env}
use chur.Keeper.HttpBackend.{HttpBackend}
use chur.Keeper.ServerTls.{ServerTlsError, ServerTls, cleaned}
use chur.Keeper.ServerTls.Cleaned.{IsCleaned, cleanup_of, keeper_tls_config-IsCleaned}
use chur.Keeper.Command.{
  Backend, filesystem_backend, Op, root_opened, root_closed, listened, listener_closed, cert_op,
  World, Exit, failed, in_root, listen_then, tls_then, with_backend, filesystem_then, exec_then,
  http_then, run_with, run_config, run,
}
use chur.Providers.{ProviderError, FsBackend}
use chur.Tls.{TlsConfig, Crypto}
use chur.Tls.SelfSigned.{CertLib, CertOp, remove_all, TempFiles}

-- What is opened is closed, in the opposite order.
pub data IsBalanced {E : Type 0} (temp_dir : Result E Text) : List Op → Type 0 where
  nothing : IsBalanced temp_dir []
  root :
      (ops : List Op)
      → IsBalanced temp_dir ops
      → IsBalanced temp_dir (root_opened ∷ (ops ++ root_closed ∷ []))
  listener :
      (ops : List Op)
      → IsBalanced temp_dir ops
      → IsBalanced temp_dir (listened ∷ (ops ++ listener_closed ∷ []))
  certs :
      (made : List CertOp) (ops : List Op)
      → IsCleaned temp_dir none made
      → IsBalanced temp_dir ops
      → IsBalanced temp_dir (map cert_op made ++ ops)
  temp_certs :
      (dir : Text) (made : List CertOp) (ops : List Op)
      → IsCleaned temp_dir (some dir) made
      → IsBalanced temp_dir ops
      → IsBalanced temp_dir (map cert_op made ++ (ops ++ cert_op (remove_all dir) ∷ []))

only_certs :
    {E : Type 0} {temp_dir : Result E Text} (made : List CertOp)
    → IsCleaned temp_dir none made
    → IsBalanced temp_dir (map cert_op made)
only_certs {temp_dir = d} made c =
    subst (IsBalanced d) (append-nil (map cert_op made)) (certs made [] c nothing)

-- The deferred cleanup behind the calls of the rest.
cleaned_after :
    {E : Type 0} {temp_dir : Result E Text} (cleanup : Option Text) (made : List CertOp)
    (ops : List Op)
    → IsCleaned temp_dir cleanup made
    → IsBalanced temp_dir ops
    → IsBalanced temp_dir (map cert_op made ++ (ops ++ map cert_op (cleaned cleanup)))
unfolding cleaned
cleaned_after none made ops c b = rw (append-nil ops) (certs made ops c b)
cleaned_after (some dir) made ops c b = temp_certs dir made ops c b

in_root-IsBalanced :
    {E : Type 0} {temp_dir : Result E Text} (x : Exit)
    → IsBalanced temp_dir x.1
    → IsBalanced temp_dir (in_root x).1
unfolding in_root
in_root-IsBalanced (code, ops) b = root ops b

unless_empty-IsBalanced :
    {E : Type 0} {temp_dir : Result E Text} (v : Text) (x : Exit)
    → IsBalanced temp_dir x.1
    → IsBalanced temp_dir (if is_empty v then failed else x).1
unfolding failed
unless_empty-IsBalanced [] x b = nothing
unless_empty-IsBalanced (c ∷ v) x b = b

module _ {E C P K : Type 0} (crypto : Crypto E C P) (lib : CertLib E K) (files : TempFiles E)
    (w : World E C P) where
  listen_then-IsBalanced :
      (o : Option E) (cfg : Config) (b : Backend) (c : TlsConfig C P)
      → IsBalanced files.temp_dir (listen_then crypto lib files w o cfg b c).1
  unfolding listen_then failed
  listen_then-IsBalanced (some e) cfg b c = nothing
  listen_then-IsBalanced none cfg b c = listener [] nothing

  tls_then-IsBalanced :
      (cfg : Config) (b : Backend) (r : Result (ServerTlsError E) (ServerTls C P) × List CertOp)
      → IsCleaned files.temp_dir (cleanup_of r.0) r.1
      → IsBalanced files.temp_dir (tls_then crypto lib files w cfg b r).1
  unfolding tls_then
  tls_then-IsBalanced cfg b (err e, ops) k = only_certs ops k
  tls_then-IsBalanced cfg b (ok s, ops) k =
      cleaned_after s.cleanup ops _ k (listen_then-IsBalanced (w.listen cfg.listen) cfg b s.config)

  with_backend-IsBalanced :
      (cfg : Config) (b : Backend)
      → IsBalanced files.temp_dir (with_backend crypto lib files w cfg b).1
  unfolding with_backend
  with_backend-IsBalanced cfg b =
      tls_then-IsBalanced cfg b _
        (keeper_tls_config-IsCleaned crypto lib files w.getenv w.read_file cfg)

  filesystem_then-IsBalanced :
      (cfg : Config) (made : Result (ProviderError E) FsBackend)
      → IsBalanced files.temp_dir (filesystem_then crypto lib files w cfg made).1
  unfolding filesystem_then failed
  filesystem_then-IsBalanced cfg (err e) = nothing
  filesystem_then-IsBalanced cfg (ok b) =
      in_root-IsBalanced (with_backend crypto lib files w cfg (filesystem_backend b))
        (with_backend-IsBalanced cfg (filesystem_backend b))

  exec_then-IsBalanced :
      {F : Type 0} (cfg : Config) (o : Option E) (made : Result F ℤ)
      → IsBalanced files.temp_dir (exec_then crypto lib files w cfg o made).1
  unfolding exec_then failed
  exec_then-IsBalanced cfg (some e) made = nothing
  exec_then-IsBalanced cfg none (err e) = nothing
  exec_then-IsBalanced cfg none (ok max_stdout) = with_backend-IsBalanced cfg _

  http_then-IsBalanced :
      {F : Type 0} (cfg : Config) (made : Result F HttpBackend)
      → IsBalanced files.temp_dir (http_then crypto lib files w cfg made).1
  unfolding http_then failed
  http_then-IsBalanced cfg (err e) = nothing
  http_then-IsBalanced cfg (ok b) = with_backend-IsBalanced cfg _

  run_with-IsBalanced :
      (cfg : Config) → IsBalanced files.temp_dir (run_with crypto lib files w cfg).1
  unfolding run_with failed
  run_with-IsBalanced cfg = elim (Bool-cases (text_eq cfg.backend_type (bytes "filesystem"))) [
    | inl f ↦ rw f (filesystem_then-IsBalanced cfg _)
    | inr f ↦ rw f (elim (Bool-cases (text_eq cfg.backend_type (bytes "exec"))) [
      | inl x ↦ rw x (unless_empty-IsBalanced cfg.exec_command _ (exec_then-IsBalanced cfg _ _))
      | inr x ↦ rw x (elim (Bool-cases (text_eq cfg.backend_type (bytes "http"))) [
        | inl y ↦ rw y (unless_empty-IsBalanced cfg.http_url _ (http_then-IsBalanced cfg _))
        | inr y ↦ rw y nothing
      ])
    ])
  ]

  run_config-IsBalanced :
      (r : Result ConfigError Config)
      → IsBalanced files.temp_dir (run_config crypto lib files w r).1
  unfolding run_config failed
  run_config-IsBalanced (err e) = nothing
  run_config-IsBalanced (ok cfg) = run_with-IsBalanced cfg

  -- Whatever fails, the command makes the call that closes each thing that it has opened, in the
  -- opposite order: Close of the root and of the listener, and RemoveAll of the temporary directory
  -- that MkdirTemp made.
  pub run-IsBalanced : IsBalanced files.temp_dir (run crypto lib files w).1
  unfolding run
  run-IsBalanced = run_config-IsBalanced (config_from_env w.getenv)
