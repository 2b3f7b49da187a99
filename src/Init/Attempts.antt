-- ===== src/Init/Attempts.antt =====
-- What a retry loop returns.
use chur.Base.{
  ℕ, zero, suc, ◌+◌, ◌≤◌, ◌<◌, Option, none, some, ◌≡◌, ◌≢◌, refl, true, sym, ◌∙◌, ◌⊎◌, inl, inr,
  ◌↔◌, arith, ltb, Result, ok, err, Option-cases,
}
use chur.Init.Retry.{after_call, after_wait, pause, attempts, retry}

Result-cases {ℓ κ} :
    {E : Type ℓ} {A : Type κ} (r : Result E A) → ((a : A) × (r ≡ ok a)) ⊎ ((e : E) × (r ≡ err e))
Result-cases (ok a) = inl (a, refl)
Result-cases (err e) = inr (e, refl)

from_cases : (k i : ℕ) → k ≤ i → (i ≡ k) ⊎ (suc k ≤ i)
from_cases k i h = ground arith

module _ {ℓ κ} {E : Type ℓ} {A : Type κ} (wait : ℕ → Option E) (call : ℕ → Result E A) where
  -- The attempts from `k` on end with the first success, `a`, at an attempt before `bound`, and no
  -- wait up to there was cut off.
  pub record IsFirstSuccess (k bound : ℕ) (a : A) : Type (ℓ ⊔ κ) where
    pub at : ℕ
    pub from : k ≤ at
    pub below : at < bound
    pub success : call at ≡ ok a
    pub failed_before : (i : ℕ) → k ≤ i → i < at → (e : E) × (call i ≡ err e)
    pub waited : (i : ℕ) → k ≤ i → i ≤ at → 0 < i → wait i ≡ none

  pause-none : (k : ℕ) → pause wait call k ≡ none → 0 < k → wait k ≡ none
  unfolding pause
  pause-none k h p = ground arith

  none-pause : (k : ℕ) → (0 < k → wait k ≡ none) → pause wait call k ≡ none
  unfolding pause
  none-pause zero h = refl
  none-pause (suc k) h = let t : ltb 0 (suc k) ≡ true = ground arith in rw t (h (omega arith))

  attempts_success :
      (left k : ℕ) (last : Option E) (a : A)
      → pause wait call k ≡ none
      → call k ≡ ok a
      → attempts wait call (suc left) k last ≡ ok a
  unfolding attempts after_wait after_call
  attempts_success left k last a h c = rw (h, c) refl

  attempts_failure :
      (left k : ℕ) (last : Option E) (e : E)
      → pause wait call k ≡ none
      → call k ≡ err e
      → attempts wait call (suc left) k last ≡ attempts wait call left (suc k) (some e)
  unfolding attempts after_wait after_call
  attempts_failure left k last e h c = rw (h, c) refl

  attempts_cut :
      (left k : ℕ) (last : Option E) (e : E)
      → pause wait call k ≡ some e
      → attempts wait call (suc left) k last ≡ err (some e)
  unfolding attempts after_wait
  attempts_cut left k last e h = rw h refl

  first_here :
      (left k : ℕ) (a : A)
      → pause wait call k ≡ none
      → call k ≡ ok a
      → IsFirstSuccess k (suc left + k) a
  first_here left k a h c = record {
    at = k;
    from = omega arith;
    below = omega arith;
    success = c;
    failed_before = λ i p q. absurd (omega arith);
    waited = λ i p q z. let e : i ≡ k = omega arith in rw e (pause-none k h (rw e at z));
  }

  first_later :
      (left k : ℕ) (a : A) (e : E)
      → pause wait call k ≡ none
      → call k ≡ err e
      → IsFirstSuccess (suc k) (left + suc k) a
      → IsFirstSuccess k (suc left + k) a
  first_later left k a e h c f = record {
    at = f.at;
    from = omega (arith, f.from);
    below = omega (arith, f.below);
    success = f.success;
    failed_before =
        λ i p q. elim (from_cases k i p) [ inl s ↦ rw s (e, c) | inr s ↦ f.failed_before i s q ];
    waited = λ i p q z. elim (from_cases k i p) [
      | inl s ↦ rw s (pause-none k h (rw s at z))
      | inr s ↦ f.waited i s q z
    ];
  }

  attempts-ok :
      (left k : ℕ) (last : Option E) (a : A)
      → attempts wait call left k last ≡ ok a
      → IsFirstSuccess k (left + k) a
  unfolding attempts after_call
  attempts-ok zero k last a h = absurd (cc)
  attempts-ok (suc left) k last a h = elim (Option-cases (pause wait call k)) [
    | inl p ↦ elim (Result-cases (call k)) [
      | inl (b, c) ↦ let h2 = attempts_success left k last b p c in first_here left k a p (cc)
      | inr (e, c) ↦
          first_later left k a e p c
            (attempts-ok left (suc k) (some e) a (sym (attempts_failure left k last e p c) ∙ h))
    ]
    | inr (e, p) ↦ absurd (cc (attempts_cut left k last e p))
  ]

  ok-attempts :
      (left k : ℕ) (last : Option E) (a : A)
      → IsFirstSuccess k (left + k) a
      → attempts wait call left k last ≡ ok a
  ok-attempts zero k last a f = absurd (omega (arith, f.from, f.below))
  ok-attempts (suc left) k last a f =
      let p : pause wait call k ≡ none = none-pause k (λ z. f.waited k (omega arith) f.from z) in
      elim (from_cases k f.at f.from) [
        | inl s ↦ attempts_success left k last a p (rw s at f.success)
        | inr s ↦
            let (e, c) = f.failed_before k (omega arith) s in
            attempts_failure left k last e p c
            ∙ ok-attempts left (suc k) (some e) a (record {
              at = f.at;
              from = s;
              below = omega (arith, f.below);
              success = f.success;
              failed_before = λ i q r. f.failed_before i (omega arith) r;
              waited = λ i q r z. f.waited i (omega arith) r z;
            })
      ]

  -- A retry loop returns a result exactly if one of its five attempts, numbered from 0, succeeds
  -- with it, every earlier one failed, and the context did not end one of the waits up to it.
  pub retry_iff : (a : A) → (retry wait call ≡ ok a) ↔ IsFirstSuccess 0 5 a
  unfolding retry
  retry_iff a = (attempts-ok 5 0 none a, ok-attempts 5 0 none a)

  attempts-keeps_error :
      (left k : ℕ) (last : Option E)
      → (left ≡ 0 → last ≢ none)
      → attempts wait call left k last ≢ err none
  unfolding attempts
  attempts-keeps_error zero k none h q = h refl refl
  attempts-keeps_error zero k (some e) h q = cc
  attempts-keeps_error (suc left) k last h q = elim (Option-cases (pause wait call k)) [
    | inr (e, p) ↦ cc (attempts_cut left k last e p)
    | inl p ↦ elim (Result-cases (call k)) [
      | inl (b, c) ↦ cc (attempts_success left k last b p c)
      | inr (e, c) ↦
          attempts-keeps_error left (suc k) (some e) (λ z r. cc)
            (sym (attempts_failure left k last e p c) ∙ q)
    ]
  ]

  -- A retry loop that returns no result returns an error: the pair of a nil value and a nil error
  -- is never returned.
  pub retry-keeps_error : retry wait call ≢ err none
  unfolding retry
  retry-keeps_error = attempts-keeps_error 5 0 none (λ z. absurd (omega arith))
