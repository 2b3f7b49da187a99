-- ===== src/Supervisor/Steps.antt =====
-- How many actions are left to a run.
use chur.Base.{
  ℕ, ◌+◌, ◌≤◌, ◌<◌, Bool, true, false, none, some, List, ◌≡◌, inl, inr, arith, Bool-cases,
}
use chur.Supervisor.Notify.{IsNotified, kept_first, stored, notify-IsNotified}
use chur.Supervisor.{
  Which, health, main, Worker, serving, finished, returned, Note, Phase, waiting, closing_health,
  closing_main, joining, exited, State, Program, get, set, initial, first_close, Step, closed,
  ended, notified, stopped, received, health_closed, main_closed, joined, Event, signalled, failed,
}

ctx_rank : Bool → ℕ
ctx_rank false = 1
ctx_rank true = 0

ctx_rank-true : (b : Bool) → ctx_rank true ≤ ctx_rank b
unfolding ctx_rank
ctx_rank-true b = omega arith

module _ {E : Type 0} where
  -- The actions that are left to a goroutine, to the select and to the context.
  worker_rank : Worker E → ℕ
  worker_rank serving = 2
  worker_rank (returned o) = 1
  worker_rank finished = 0

  phase_rank : Phase E → ℕ
  phase_rank waiting = 4
  phase_rank closing_health = 3
  phase_rank closing_main = 2
  phase_rank (joining o) = 1
  phase_rank (exited o) = 0

  -- Every action uses up one of those that are left.
  pub rank : State E → ℕ
  rank s = worker_rank s.health + worker_rank s.main + phase_rank s.phase + ctx_rank s.ctx_done

  set-rank :
      (w : Which) (x : Worker E) (s : State E)
      → worker_rank x < worker_rank (get w s)
      → rank (set w x s) < rank s
  unfolding rank set get
  set-rank health x s h = omega (arith, h)
  set-rank main x s h = omega (arith, h)

  notified-rank :
      (w : Which) (e : E) (s t : State E)
      → get w s ≡ returned (some e)
      → IsNotified e s t
      → rank (set w finished t) < rank s
  unfolding rank set get worker_rank
  notified-rank health e s t g (kept_first f h q) = rw (q, g) (omega arith)
  notified-rank main e s t g (kept_first f h q) = rw (q, g) (omega arith)
  notified-rank health e s t g (stored h i q) = rw (q, g) (omega arith)
  notified-rank main e s t g (stored h i q) = rw (q, g) (omega arith)

  first_close-rank : (p : Program E) → phase_rank (first_close p) < 4
  unfolding phase_rank first_close
  first_close-rank p = elim (Bool-cases p.has_health) [
    | inl t ↦ rw t (omega arith)
    | inr t ↦ rw t (omega arith)
  ]

  pub Step-rank :
      {p : Program E} {es : List (Note E)} {s t : State E} → Step p es s t → rank t < rank s
  unfolding rank phase_rank
  Step-rank (closed w s g c) =
      set-rank w (returned none) s (unfold worker_rank in rw g (omega arith))
  Step-rank (ended w s g) = set-rank w finished s (unfold worker_rank in rw g (omega arith))
  Step-rank (notified w e s t g n) = notified-rank w e s t g (notify-IsNotified e s t n)
  Step-rank {p} (stopped s h c) = rw h (omega (arith, first_close-rank p))
  Step-rank {p} (received s n h q) =
      rw h (omega (arith, first_close-rank p, ctx_rank-true s.ctx_done))
  Step-rank (health_closed s o h) = rw h (omega arith)
  Step-rank (main_closed s o h) = rw h (omega arith)
  Step-rank (joined s o h i j) = rw h (omega arith)

  pub event-rank : {s t : State E} → Event s t → rank t < rank s
  unfolding rank ctx_rank
  event-rank (signalled s h) = rw h (omega arith)
  event-rank (failed w e s g) =
      set-rank w (returned (some e)) s (unfold worker_rank in rw g (omega arith))

  pub initial-rank : (p : Program E) → rank (initial p) ≤ 9
  unfolding rank initial worker_rank phase_rank ctx_rank
  initial-rank p = elim (Bool-cases p.has_health) [
    | inl t ↦ rw t (omega arith)
    | inr t ↦ rw t (omega arith)
  ]

  pub waiting-rank : (s : State E) → s.phase ≡ waiting → 4 ≤ rank s
  unfolding rank phase_rank
  waiting-rank s h = rw h (omega arith)
