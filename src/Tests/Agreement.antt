-- ===== src/Tests/Agreement.antt =====
-- The webhook and chur-init at a concrete pod.
use chur.Base.{ℕ, true, none, [], ◌∷◌}
use chur.Text.{Text, bytes}
use chur.Dict.{get}
use chur.EnvName
use chur.Init.{System}
use chur.Init.Outcome.{Outcome}

-- chur-init without any provider, in the environment of the pod.
abbrev node : System ℕ
node = record {
  getenv = λ name. get name (
      (bytes "CHUR_PROVIDER", bytes "env")
      ∷ (bytes "CHUR_SECRET_REF", bytes "DB_PASSWORD")
      ∷ (bytes "CHUR_MOUNT_PATH", bytes "/secrets")
      ∷ (bytes "CHUR_MAX_SECRET_SIZE", bytes "1Mi")
      ∷ (bytes "CHUR_LOCAL_BASE_PATH", bytes "/etc/chur/secrets")
      ∷ []);
  registered = λ name. none;
  create_wait = λ n. none;
  fetch_wait = λ n. none;
  succeeds = λ op. true;
}
