-- ===== src/Slots/Free.antt =====
-- The requests on a semaphore never deadlock.
use chur.Base.{
  ℕ, ◌+◌, ◌-◌, ◌<◌, List, ◌∷◌, ◌++◌, ◌≡◌, inl, inr, refl, sym, arith, true, ltb, Bool-cases, Option,
  ok, check, bind-eq-ok, ok-injective, subst,
}
use chur.Base.Int.{pos, ltb_ℤ}
use chur.Slots.{
  Request, waiting, holding, answered, State, Step, took, released, Reach, Server, or_default,
  new_server,
}
use chur.Slots.Held.{held, Reach-IsHeld, holder}
use chur.Webhook.Config.{Config}

-- What can happen next to a request that waits: it takes a slot, or a request that holds one gives
-- it back.
pub data CanGo (capacity : ℕ) (s : State) (before after : List Request) : Type 0 where
  takes :
      Step capacity s (record { taken = s.taken + 1; requests = before ++ holding ∷ after })
      → CanGo capacity s before after
  is_given :
      (front back : List Request)
      → s.requests ≡ front ++ holding ∷ back
      → (t : State) → Step capacity s t
      → t.taken < capacity
      → CanGo capacity s before after

full_gives :
    (capacity taken : ℕ) (rs before after : List Request)
    → 0 < capacity
    → taken ≡ held rs
    → taken ≡ capacity
    → CanGo capacity (record { taken = taken; requests = rs }) before after
full_gives capacity taken rs before after p t c =
    let (front, back, e) = holder rs (omega (arith, p, t, c)) in
    let given : State = record { taken = taken - 1; requests = front ++ answered ∷ back } in
    let slot : taken ≡ taken - 1 + 1 = omega (arith, p, c) in
    is_given front back e given
      (subst (λ n. Step capacity (record { taken = n; requests = rs }) given) (sym slot)
        (subst (λ l. Step capacity (record { taken = taken - 1 + 1; requests = l }) given) (sym e)
          (released (taken - 1) front back)))
      (omega (arith, p, c))

-- In a server with a positive capacity, a request that waits at the select can take a slot, or a
-- request that holds one can give it back: the requests never deadlock. Which of the waiting requests
-- gets a slot is not determined.
pub Reach-CanGo :
    (capacity : ℕ) (before after : List Request) {s : State}
    → 0 < capacity
    → Reach capacity s
    → s.requests ≡ before ++ waiting ∷ after
    → CanGo capacity s before after
Reach-CanGo capacity before after {s} p r e =
    let h = Reach-IsHeld capacity r in
    elim (Bool-cases (ltb s.taken capacity)) [
      | inl l ↦ takes (
          subst
            (λ rs.
              Step capacity (record { taken = s.taken; requests = rs })
                (record { taken = s.taken + 1; requests = before ++ holding ∷ after }))
            (sym e) (took s.taken before after (ground arith)))
      | inr l ↦
          full_gives capacity s.taken s.requests before after p h.tokens (ground (arith, h.bounded))
    ]

-- The semaphore of a server that NewServer makes has a positive capacity.
pub new_server-positive :
    {E : Type 0} (add_core add_admission : Option E) (cfg : Option Config) {server : Server}
    → new_server add_core add_admission cfg ≡ ok server
    → ltb_ℤ (pos 0) server.capacity ≡ true
unfolding new_server
new_server-positive add_core add_admission cfg h =
    let (u, a, h1) = bind-eq-ok (check add_core) _ h in
    let (v, b, h2) = bind-eq-ok (check add_admission) _ h1 in
    subst (λ s. ltb_ℤ (pos 0) s.capacity ≡ true) (ok-injective h2)
      (elim (Bool-cases (ltb_ℤ (pos 0) (or_default cfg).max_concurrent)) [
        | inl t ↦ rw t t
        | inr t ↦ rw t refl
      ])
