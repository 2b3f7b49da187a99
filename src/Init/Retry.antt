-- ===== src/Init/Retry.antt =====
-- The two retry loops of cmd/init/main.go, initProvider and backoffFetch, which differ only in
-- what they call and log.
use chur.Base.{ℕ, zero, suc, Option, none, some, ltb, if◌then◌else◌, Result, ok, err}

-- maxRetries
abbrev pub max_retries : ℕ
max_retries = 5

module _ {ℓ κ} {E : Type ℓ} {A : Type κ} (wait : ℕ → Option E) (call : ℕ → Result E A) where
  -- The call of an attempt, and the rest of the loop if it fails.
  unfoldable pub after_call : Result E A → (E → Result (Option E) A) → Result (Option E) A
  after_call (ok a) rest = ok a
  after_call (err e) rest = rest e

  -- The wait before an attempt other than the first.
  unfoldable pub after_wait : Option E → Result (Option E) A → Result (Option E) A
  after_wait none rest = rest
  after_wait (some e) rest = err (some e)

  unfoldable pub pause : ℕ → Option E
  pause attempt = if ltb 0 attempt then wait attempt else none

  -- The loop from an attempt on, with the attempts that are left and the last error.
  unfoldable pub attempts : ℕ → ℕ → Option E → Result (Option E) A
  attempts zero attempt last_err = err last_err
  attempts (suc left) attempt last_err =
      after_wait (pause attempt)
        (after_call (call attempt) (λ e. attempts left (suc attempt) (some e)))

  unfoldable pub retry : Result (Option E) A
  retry = attempts max_retries 0 none
