-- ===== src/Keeper/Config/WellFormed.antt =====
-- What the keeper's configuration guarantees to the servers and the backends that read it.
use chur.Base.{
  ℕ, zero, suc, ◌*◌, ◌≤◌, ◌<◌, Bool, true, false, Option, none, some, [], ◌∷◌, ◌≡◌, ◌≢◌, ◌⊎◌, refl,
  sym, inl, inr, arith, Result, ok, err, bind-eq-ok, map_err-eq-ok, ok-injective, subst,
}
use chur.Base.Int.{ℤ, pos, negsuc, max_int64, wrap_int64-pos}
use chur.Text.{Text, bytes, is_empty, text_eq}
use chur.Text.Laws.{text_eq_iff}
use chur.StrConv.{NumError, parse_int, parse_uint, signed}
use chur.Validate.{Reason, validate_local_base_path}
use chur.ByteSize.Bounds.{parse-IsSize}
use chur.Keeper.Config.{
  TlsMode, self_signed, mtls, Config, ConfigError, bad_max_secret_size, bad_max_concurrent,
  bad_exec_timeout, bad_exec_max_stdout, bad_http_timeout, seconds, default_config, value_or,
  tls_mode_from, valid_root, fs_root_from, size_from, positive, count_from, config_from_env,
}

-- A positive int64.
abbrev pub IsPositive : ℤ → Type 0
IsPositive z = (n : ℕ) × (z ≡ pos n) × (0 < n) × (n ≤ max_int64)

-- The value of a positive number of seconds.
abbrev pub IsSeconds : ℤ → Type 0
IsSeconds z = (d : ℕ) × (z ≡ seconds d) × (0 < d) × (d ≤ max_int64)

-- A number of seconds up to 2^63 - 1 nanoseconds is not changed by the multiplication.
pub seconds-pos : (d : ℕ) → d ≤ 9223372036 → seconds d ≡ pos (d * 1000000000)
unfolding seconds
seconds-pos d h = wrap_int64-pos (d * 1000000000) (omega arith)

signed-bound : (b : Bool) (r : Result NumError ℕ) (n : ℕ) → signed b r ≡ ok (pos n) → n ≤ max_int64
unfolding signed
signed-bound b (err e) n h = absurd (cc)
signed-bound true (ok zero) n h = ground arith
signed-bound true (ok (suc m)) n h = ground arith
signed-bound false (ok m) n h = ground arith

parse_int-bound : (v : Text) (n : ℕ) → parse_int v ≡ ok (pos n) → n ≤ max_int64
unfolding parse_int
parse_int-bound [] n h = absurd (cc)
parse_int-bound (c ∷ cs) n h = ground (
  arith,
  signed-bound false (parse_uint cs) n,
  signed-bound true (parse_uint cs) n,
  signed-bound false (parse_uint (c ∷ cs)) n,
)

positive-ok :
    (e : ConfigError) (r : Result NumError ℤ) (n : ℕ)
    → positive e r ≡ ok n
    → (r ≡ ok (pos n)) × (0 < n)
unfolding positive
positive-ok e (err x) n h = absurd (cc)
positive-ok e (ok (negsuc m)) n h = absurd (cc)
positive-ok e (ok (pos zero)) n h = absurd (cc)
positive-ok e (ok (pos (suc m))) n h =
    let q : suc m ≡ n = ok-injective h in (rw q refl, omega (arith, q))

-- A count is the default's or that of a positive number.
count_from-ok :
    (cause : Text → ConfigError) (f : ℕ → ℤ) (default : ℤ) (v : Text) {z : ℤ}
    → count_from cause f default v ≡ ok z
    → ((v ≡ []) × (z ≡ default)) ⊎ ((n : ℕ) × (z ≡ f n) × (0 < n) × (n ≤ max_int64))
unfolding count_from
count_from-ok cause f default [] h = inl (refl, sym (ok-injective h))
count_from-ok cause f default (c ∷ cs) h =
    let (n, p, e) = bind-eq-ok (positive (cause (c ∷ cs)) (parse_int (c ∷ cs))) (λ n. ok (f n)) h in
    let (q, l) = positive-ok (cause (c ∷ cs)) (parse_int (c ∷ cs)) n p in
    inr (n, sym (ok-injective e), l, parse_int-bound (c ∷ cs) n q)

size_from-ok :
    (default : ℤ) (v : Text) {z : ℤ}
    → size_from default v ≡ ok z
    → (z ≡ default) ⊎ ((n : ℕ) × (z ≡ pos n) × (n ≤ max_int64))
unfolding size_from
size_from-ok default [] h = inl (sym (ok-injective h))
size_from-ok default (c ∷ cs) h =
    let (n, p, v, l) = parse-IsSize (c ∷ cs) (map_err-eq-ok bad_max_secret_size _ h) in
    inr (_, v, l)

valid_root-ok :
    (v : Text) (o : Option Reason) {root : Text}
    → valid_root v o ≡ ok root
    → (root ≡ v) × (o ≡ none)
unfolding valid_root
valid_root-ok v none h = (sym (ok-injective h), refl)
valid_root-ok v (some r) h = cc

fs_root_from-ok :
    (default v : Text) {root : Text}
    → fs_root_from default v ≡ ok root
    → ((v ≡ []) × (root ≡ default)) ⊎ ((root ≡ v) × (validate_local_base_path v ≡ none))
unfolding fs_root_from
fs_root_from-ok default [] h = inl (refl, sym (ok-injective h))
fs_root_from-ok default (c ∷ cs) h =
    inr (valid_root-ok (c ∷ cs) (validate_local_base_path (c ∷ cs)) h)

tls_mode_from-ok :
    (v : Text) {m : TlsMode}
    → tls_mode_from v ≡ ok m
    → ((m ≡ mtls) × (v ≡ bytes "mtls"))
      ⊎ ((m ≡ self_signed) × ((v ≡ bytes "self-signed") ⊎ (v ≡ [])))
unfolding tls_mode_from text_eq
tls_mode_from-ok [] h = inr (sym (ok-injective h), inr refl)
tls_mode_from-ok (c ∷ cs) h =
    ground (arith, text_eq_iff (c ∷ cs) (bytes "mtls"), text_eq_iff (c ∷ cs) (bytes "self-signed"))

value_or-ne : (default v : Text) → default ≢ [] → value_or default v ≢ []
unfolding value_or
value_or-ne default [] h = h
value_or-ne default (c ∷ cs) h = λ q. cc

-- What a configuration guarantees, and how its mode and its root come from the environment.
pub record IsWellFormed (getenv : Text → Text) (c : Config) : Type 0 where
  pub mode :
      ((c.tls_mode ≡ mtls) × (getenv (bytes "CHUR_KEEPER_TLS_MODE") ≡ bytes "mtls"))
      ⊎ ((c.tls_mode ≡ self_signed)
          × ((getenv (bytes "CHUR_KEEPER_TLS_MODE") ≡ bytes "self-signed")
              ⊎ (getenv (bytes "CHUR_KEEPER_TLS_MODE") ≡ [])))
  pub root : validate_local_base_path c.fs_root ≡ none
  pub secret_size : (n : ℕ) × (c.max_secret_size ≡ pos n) × (n ≤ max_int64)
  pub concurrent : IsPositive c.max_concurrent
  pub exec_stdout : IsPositive c.exec_max_stdout
  pub timeouts : IsSeconds c.exec_timeout × IsSeconds c.http_timeout
  pub addresses : (c.listen ≢ []) × (c.health_listen ≢ []) × (c.backend_type ≢ [])

default_root : validate_local_base_path default_config.fs_root ≡ none
unfolding default_config validate_local_base_path chur.Text.has_prefix text_eq chur.FilePath.clean
    chur.Text.contains chur.Validate.first_invalid chur.Text.Runes.runes
    chur.Validate.is_allowed_mount_rune
default_root = refl

root_valid :
    {v root : Text}
    → ((v ≡ []) × (root ≡ default_config.fs_root))
      ⊎ ((root ≡ v) × (validate_local_base_path v ≡ none))
    → validate_local_base_path root ≡ none
root_valid (inl (e, q)) = rw q default_root
root_valid (inr (e, h)) = rw e h

count_pos :
    {v : Text} {z : ℤ} (n : ℕ)
    → 0 < n
    → n ≤ max_int64
    → ((v ≡ []) × (z ≡ pos n)) ⊎ ((n : ℕ) × (z ≡ pos n) × (0 < n) × (n ≤ max_int64))
    → IsPositive z
count_pos n p l (inl (e, q)) = (n, q, p, l)
count_pos n p l (inr x) = x

count_seconds :
    {v : Text} {z : ℤ} (d : ℕ)
    → 0 < d
    → d ≤ max_int64
    → ((v ≡ []) × (z ≡ seconds d)) ⊎ ((n : ℕ) × (z ≡ seconds n) × (0 < n) × (n ≤ max_int64))
    → IsSeconds z
count_seconds d p l (inl (e, q)) = (d, q, p, l)
count_seconds d p l (inr x) = x

size_of :
    {z : ℤ}
    → (z ≡ pos 1048576) ⊎ ((n : ℕ) × (z ≡ pos n) × (n ≤ max_int64))
    → (n : ℕ) × (z ≡ pos n) × (n ≤ max_int64)
size_of (inl e) = (1048576, e, omega arith)
size_of (inr x) = x

listen-ne : (v : Text) → value_or default_config.listen v ≢ []
unfolding default_config
listen-ne v = value_or-ne default_config.listen v (λ q. cc)

health_listen-ne : (v : Text) → value_or default_config.health_listen v ≢ []
unfolding default_config
health_listen-ne v = value_or-ne default_config.health_listen v (λ q. cc)

filesystem-ne : bytes "filesystem" ≢ []
filesystem-ne q = cc

-- A configuration that ConfigFromEnv returns has the TLS mode that the environment names, self-signed
-- where it names none; its directory passes the validator; the limits on requests and on the output
-- of a command are positive int64s, and that on a secret is an int64 that is not negative; its
-- timeouts are positive numbers of seconds as int64 arithmetic multiplies them; and no address and
-- no backend name is empty.
pub config_from_env-IsWellFormed :
    (getenv : Text → Text) {c : Config} → config_from_env getenv ≡ ok c → IsWellFormed getenv c
unfolding config_from_env default_config
config_from_env-IsWellFormed getenv h =
    let (mode, a, h1) = bind-eq-ok (tls_mode_from (getenv (bytes "CHUR_KEEPER_TLS_MODE"))) _ h in
    let (root, b, h2) =
      bind-eq-ok
        (fs_root_from default_config.fs_root (getenv (bytes "CHUR_KEEPER_BACKEND_FS_ROOT"))) _ h1 in
    let (size, d, h3) =
      bind-eq-ok
        (size_from default_config.max_secret_size (getenv (bytes "CHUR_KEEPER_MAX_SECRET_SIZE"))) _
        h2 in
    let (conc, e, h4) =
      bind-eq-ok
        (count_from bad_max_concurrent pos default_config.max_concurrent
          (getenv (bytes "CHUR_KEEPER_MAX_CONCURRENT")))
        _ h3 in
    let (time, f, h5) =
      bind-eq-ok
        (count_from bad_exec_timeout seconds default_config.exec_timeout
          (getenv (bytes "CHUR_KEEPER_EXEC_TIMEOUT")))
        _ h4 in
    let (out, g, h6) =
      bind-eq-ok
        (count_from bad_exec_max_stdout pos default_config.exec_max_stdout
          (getenv (bytes "CHUR_KEEPER_EXEC_MAX_STDOUT")))
        _ h5 in
    let (htime, i, h7) =
      bind-eq-ok
        (count_from bad_http_timeout seconds default_config.http_timeout
          (getenv (bytes "CHUR_KEEPER_HTTP_TIMEOUT")))
        _ h6 in
    subst (IsWellFormed getenv) (ok-injective h7) (record {
      mode = tls_mode_from-ok _ a;
      root = root_valid (fs_root_from-ok _ _ b);
      secret_size = size_of (size_from-ok (pos 1048576) _ d);
      concurrent =
          count_pos 100 (omega arith) (omega arith)
            (count_from-ok bad_max_concurrent pos (pos 100) _ e);
      exec_stdout =
          count_pos 1048576 (omega arith) (omega arith)
            (count_from-ok bad_exec_max_stdout pos (pos 1048576) _ g);
      timeouts = (
        count_seconds 10 (omega arith) (omega arith)
            (count_from-ok bad_exec_timeout seconds (seconds 10) _ f),
        count_seconds 30 (omega arith) (omega arith)
            (count_from-ok bad_http_timeout seconds (seconds 30) _ i),
      );
      addresses = (
        listen-ne (getenv (bytes "CHUR_KEEPER_LISTEN")),
        health_listen-ne (getenv (bytes "CHUR_KEEPER_HEALTH_LISTEN")),
        value_or-ne (bytes "filesystem") (getenv (bytes "CHUR_KEEPER_BACKEND")) filesystem-ne,
      );
    })
