-- ===== src/Slots/Held.antt =====
-- The tokens of the semaphore are the requests that hold a slot.
use chur.Base.{ℕ, ◌+◌, ◌≤◌, ◌<◌, List, [], ◌∷◌, ◌++◌, ◌≡◌, refl, ap, arith}
use chur.Slots.{
  Request, waiting, holding, answered, State, Step, arrived, took, gave_up, released, Reach, start,
  next,
}

-- How many requests hold a slot.
pub held : List Request → ℕ
held [] = 0
held (waiting ∷ rs) = held rs
held (holding ∷ rs) = held rs + 1
held (answered ∷ rs) = held rs

pub held-append : (xs ys : List Request) → held (xs ++ ys) ≡ held xs + held ys
unfolding held
held-append [] ys = omega arith
held-append (waiting ∷ xs) ys = held-append xs ys
held-append (holding ∷ xs) ys = omega (arith, held-append xs ys)
held-append (answered ∷ xs) ys = held-append xs ys

-- The tokens in the channel are those of the requests, and there are at most as many as fit.
pub record IsHeld (capacity : ℕ) (s : State) : Type 0 where
  pub tokens : s.taken ≡ held s.requests
  pub bounded : s.taken ≤ capacity

Step-IsHeld :
    {capacity : ℕ} {s t : State} → Step capacity s t → IsHeld capacity s → IsHeld capacity t
unfolding held
Step-IsHeld (arrived n rs) h = record {
  tokens = omega (arith, h.tokens, held-append rs (waiting ∷ []));
  bounded = h.bounded;
}
Step-IsHeld (took n before after l) h = record {
  tokens =
      omega (
        arith,
        h.tokens,
        held-append before (waiting ∷ after),
        held-append before (holding ∷ after),
      );
  bounded = omega (arith, l);
}
Step-IsHeld (gave_up n before after) h = record {
  tokens = omega (
    arith,
    h.tokens,
    held-append before (waiting ∷ after),
    held-append before (answered ∷ after),
  );
  bounded = h.bounded;
}
Step-IsHeld (released n before after) h = record {
  tokens = omega (
    arith,
    h.tokens,
    held-append before (holding ∷ after),
    held-append before (answered ∷ after),
  );
  bounded = omega (arith, h.bounded);
}

-- However the requests of a server interleave, the tokens in its semaphore are exactly those of the
-- requests that hold a slot, and never more than its capacity.
pub Reach-IsHeld : (capacity : ℕ) {s : State} → Reach capacity s → IsHeld capacity s
unfolding held
Reach-IsHeld capacity start = record { tokens = refl; bounded = omega arith }
Reach-IsHeld capacity (next r s) = Step-IsHeld s (Reach-IsHeld capacity r)

-- A request that holds a slot, and those around it.
abbrev pub Holder : List Request → Type 0
Holder rs = (before : List Request) × (after : List Request) × (rs ≡ before ++ holding ∷ after)

behind : (r : Request) (rs : List Request) → Holder rs → Holder (r ∷ rs)
behind r rs (before, after, e) = (r ∷ before, after, ap (λ l. r ∷ l) e)

pub holder : (rs : List Request) → 0 < held rs → Holder rs
unfolding held
holder [] h = absurd (omega (arith, h))
holder (holding ∷ rs) h = ([], rs, refl)
holder (waiting ∷ rs) h = behind waiting rs (holder rs h)
holder (answered ∷ rs) h = behind answered rs (holder rs h)
