-- ===== src/Keeper/Command/Serves.antt =====
-- What the keeper serves with when its command exits with 0.
use chur.Base.{
  Bool-cases, Option, none, some, List, [], ◌∷◌, if◌then◌else◌, Result, ok, err, ◌≡◌, inl, inr,
  refl, arith,
}
use chur.Base.Int.{ℤ}
use chur.Text.{Text, bytes, is_empty, text_eq}
use chur.Text.Laws.{text_eq_iff}
use chur.Keeper.Config.{Config, ConfigError, config_from_env}
use chur.Keeper.Exec.{ExecError, new_backend}
use chur.Keeper.HttpBackend.{HttpBackend, NewError, new_http_backend}
use chur.Keeper.ServerTls.{ServerTlsError, ServerTls, keeper_tls_config}
use chur.Keeper.Command.{
  Backend, filesystem_backend, exec_backend, http_backend, World, Exit, failed, in_root, exit_code,
  listen_then, tls_then, with_backend, filesystem_then, exec_then, http_then, run_with, run_config,
  run,
}
use chur.Providers.{ProviderError, FsBackend, new_with_max_size}
use chur.Tls.{TlsConfig, Crypto}
use chur.Tls.SelfSigned.{CertLib, CertOp, TempFiles}

module _ {E C P K : Type 0} (crypto : Crypto E C P) (lib : CertLib E K) (files : TempFiles E)
    (w : World E C P) where
  -- The backend of a configuration, and that its constructor accepted it.
  pub data IsBackend (cfg : Config) : Backend → Type 0 where
    filesystem :
        (b : FsBackend)
        → cfg.backend_type ≡ bytes "filesystem"
        → new_with_max_size (w.open_root cfg.fs_root) cfg.fs_root cfg.max_secret_size ≡ ok b
        → IsBackend cfg (filesystem_backend b)
    exec :
        (max_stdout : ℤ)
        → cfg.backend_type ≡ bytes "exec"
        → w.stat cfg.exec_command ≡ none
        → new_backend {E = E} cfg.exec_max_stdout ≡ ok max_stdout
        → IsBackend cfg (exec_backend cfg.exec_command cfg.exec_timeout max_stdout)
    http :
        (b : HttpBackend)
        → cfg.backend_type ≡ bytes "http"
        → new_http_backend w.parse_url w.read_file cfg.http_url cfg.http_token_file cfg.http_timeout
            cfg.max_secret_size
          ≡ ok b
        → IsBackend cfg (http_backend b)

  -- The server ran with this configuration and returned no error.
  pub record Serves (cfg : Config) (b : Backend) : Type 0 where
    pub tls : ServerTls C P
    pub configured : (keeper_tls_config crypto lib files w.getenv w.read_file cfg).0 ≡ ok tls
    pub listening : w.listen cfg.listen ≡ none
    pub served : w.serve cfg b tls.config ≡ none

  exit_code-zero : (o : Option E) → exit_code o ≡ 0 → o ≡ none
  unfolding exit_code
  exit_code-zero none h = refl
  exit_code-zero (some e) h = absurd (omega (arith, h))

  listen_then-zero :
      (o : Option E) (cfg : Config) (b : Backend) (c : TlsConfig C P)
      → (listen_then crypto lib files w o cfg b c).0 ≡ 0
      → (o ≡ none) × (w.serve cfg b c ≡ none)
  unfolding listen_then failed
  listen_then-zero (some e) cfg b c h = absurd (omega (arith, h))
  listen_then-zero none cfg b c h = (refl, exit_code-zero _ h)

  tls_then-Serves :
      (cfg : Config) (b : Backend) (r : Result (ServerTlsError E) (ServerTls C P))
      (ops : List CertOp)
      → (keeper_tls_config crypto lib files w.getenv w.read_file cfg).0 ≡ r
      → (tls_then crypto lib files w cfg b (r, ops)).0 ≡ 0
      → Serves cfg b
  unfolding tls_then
  tls_then-Serves cfg b (err e) ops q h = absurd (omega (arith, h))
  tls_then-Serves cfg b (ok s) ops q h =
      let (l, v) = listen_then-zero (w.listen cfg.listen) cfg b s.config h in
      record { tls = s; configured = q; listening = l; served = v }

  with_backend-Serves :
      (cfg : Config) (b : Backend) → (with_backend crypto lib files w cfg b).0 ≡ 0 → Serves cfg b
  unfolding with_backend
  with_backend-Serves cfg b h = tls_then-Serves cfg b _ _ refl h

  abbrev ServesOne : Config → Type 0
  ServesOne cfg = (b : Backend) × IsBackend cfg b × Serves cfg b

  filesystem_then-Serves :
      (cfg : Config) (made : Result (ProviderError E) FsBackend)
      → cfg.backend_type ≡ bytes "filesystem"
      → new_with_max_size (w.open_root cfg.fs_root) cfg.fs_root cfg.max_secret_size ≡ made
      → (filesystem_then crypto lib files w cfg made).0 ≡ 0
      → ServesOne cfg
  unfolding filesystem_then failed in_root
  filesystem_then-Serves cfg (err e) t m h = absurd (omega (arith, h))
  filesystem_then-Serves cfg (ok b) t m h = (_, filesystem b t m, with_backend-Serves cfg _ h)

  exec_then-Serves :
      (cfg : Config) (o : Option E) (made : Result (ExecError E) ℤ)
      → cfg.backend_type ≡ bytes "exec"
      → w.stat cfg.exec_command ≡ o
      → new_backend {E = E} cfg.exec_max_stdout ≡ made
      → (exec_then crypto lib files w cfg o made).0 ≡ 0
      → ServesOne cfg
  unfolding exec_then failed
  exec_then-Serves cfg (some e) made t o m h = absurd (omega (arith, h))
  exec_then-Serves cfg none (err e) t o m h = absurd (omega (arith, h))
  exec_then-Serves cfg none (ok n) t o m h = (_, exec n t o m, with_backend-Serves cfg _ h)

  http_then-Serves :
      (cfg : Config) (made : Result (NewError E) HttpBackend)
      → cfg.backend_type ≡ bytes "http"
      → new_http_backend w.parse_url w.read_file cfg.http_url cfg.http_token_file cfg.http_timeout
          cfg.max_secret_size
        ≡ made
      → (http_then crypto lib files w cfg made).0 ≡ 0
      → ServesOne cfg
  unfolding http_then failed
  http_then-Serves cfg (err e) t m h = absurd (omega (arith, h))
  http_then-Serves cfg (ok b) t m h = (_, http b t m, with_backend-Serves cfg _ h)

  unless_empty : (v : Text) (x : Exit) → (if is_empty v then failed else x).0 ≡ 0 → x.0 ≡ 0
  unfolding failed
  unless_empty [] x h = absurd (omega (arith, h))
  unless_empty (b ∷ bs) x h = h

  run_with-Serves : (cfg : Config) → (run_with crypto lib files w cfg).0 ≡ 0 → ServesOne cfg
  unfolding run_with failed
  run_with-Serves cfg h = elim (Bool-cases (text_eq cfg.backend_type (bytes "filesystem"))) [
    | inl f ↦ filesystem_then-Serves cfg _ ((text_eq_iff _ _).0 f) refl (rw f at h)
    | inr f ↦ elim (Bool-cases (text_eq cfg.backend_type (bytes "exec"))) [
      | inl x ↦
          exec_then-Serves cfg _ _ ((text_eq_iff _ _).0 x) refl refl
            (unless_empty cfg.exec_command _ (rw (f, x) at h))
      | inr x ↦ elim (Bool-cases (text_eq cfg.backend_type (bytes "http"))) [
        | inl y ↦
            http_then-Serves cfg _ ((text_eq_iff _ _).0 y) refl
              (unless_empty cfg.http_url _ (rw (f, x, y) at h))
        | inr y ↦ absurd (omega (arith, rw (f, x, y) at h))
      ]
    ]
  ]

  run_config-Serves :
      (r : Result ConfigError Config)
      → (run_config crypto lib files w r).0 ≡ 0
      → (cfg : Config) × (r ≡ ok cfg) × ServesOne cfg
  unfolding run_config failed
  run_config-Serves (err e) h = absurd (omega (arith, h))
  run_config-Serves (ok cfg) h = (cfg, refl, run_with-Serves cfg h)

  -- The command exits with 0 only if the environment gave a configuration, whose backend was
  -- accepted by its constructor, ServerTLSConfig and the listener succeeded, and the server ran with
  -- exactly these and returned no error.
  pub run-Serves :
      (run crypto lib files w).0 ≡ 0
      → (cfg : Config) × (config_from_env w.getenv ≡ ok cfg)
        × ((b : Backend) × IsBackend cfg b × Serves cfg b)
  unfolding run
  run-Serves h = run_config-Serves (config_from_env w.getenv) h
