-- ===== src/Supervisor/Ends.antt =====
-- Every run comes to its end.
use chur.Base.{ℕ, zero, suc, ◌≤◌, List, [], ◌++◌, Option, ◌≡◌, inl, inr, arith}
use chur.Supervisor.{
  main, Note, exited, State, Program, initial, Step, Event, Run, start, step, event,
}
use chur.Supervisor.Exit.{Shut, HealthShut, Run-result}
use chur.Supervisor.Progress.{IsIdle, CanStep, Run-CanStep}
use chur.Supervisor.Steps.{rank, waiting-rank, Step-rank, event-rank, initial-rank}

module _ {E : Type 0} where
  -- What has become of a program within n actions, whichever come next: it has returned after
  -- shutting its servers down; or it is idle, and the same holds after any event; or it can go on,
  -- and the same holds after any step and any event.
  pub data Ends (p : Program E) : ℕ → List (Note E) → State E → Type 0 where
    has_returned :
        {n : ℕ} {es : List (Note E)} {s : State E} (o : Option E)
        → s.phase ≡ exited o
        → HealthShut p es
        → (x : Option E) × Shut main x es
        → Ends p n es s
    is_idle :
        {n : ℕ} {es : List (Note E)} {s : State E}
        → IsIdle p s
        → ((t : State E) → Event s t → Ends p n es t)
        → Ends p (suc n) es s
    goes_on :
        {n : ℕ} {es : List (Note E)} {s : State E}
        → CanStep p s
        → ((new : List (Note E)) (t : State E) → Step p new s t → Ends p n (es ++ new) t)
        → ((t : State E) → Event s t → Ends p n es t)
        → Ends p (suc n) es s

  returned-Ends :
      (p : Program E) (k : ℕ) (o : Option E) {n : ℕ} {es : List (Note E)} {s : State E}
      → Run p n es s
      → s.phase ≡ exited o
      → Ends p k es s
  returned-Ends p k o r h =
      let (a, b, c, (x, d, q)) = Run-result p o r h in has_returned o h c (x, d)

  Run-Ends :
      (p : Program E) (k : ℕ) {n : ℕ} {es : List (Note E)} {s : State E}
      → rank s ≤ k
      → Run p n es s
      → Ends p k es s
  Run-Ends p zero {s = s} l r = elim (Run-CanStep p r) [
    | inl (o, h) ↦ returned-Ends p zero o r h
    | inr (inl i) ↦ absurd (omega (arith, l, waiting-rank s i.at_select))
    | inr (inr (new, t, a)) ↦ absurd (omega (arith, l, Step-rank a))
  ]
  Run-Ends p (suc k) l r = elim (Run-CanStep p r) [
    | inl (o, h) ↦ returned-Ends p (suc k) o r h
    | inr (inl i) ↦ is_idle i (λ t a. Run-Ends p k (omega (arith, l, event-rank a)) (event r a))
    | inr (inr c) ↦
        goes_on c (λ new t a. Run-Ends p k (omega (arith, l, Step-rank a)) (step r a))
          (λ t a. Run-Ends p k (omega (arith, l, event-rank a)) (event r a))
  ]

  -- From its start, and however the signals, the failures of the servers and the goroutines
  -- interleave, Serve of the keeper and run of the webhook come within nine actions to a state in
  -- which they have returned, after Shutdown of each of their servers has returned, or in which they
  -- are idle until a signal or a failure comes.
  pub initial-Ends : (p : Program E) → Ends p 9 [] (initial p)
  initial-Ends p = Run-Ends p 9 (initial-rank p) start
