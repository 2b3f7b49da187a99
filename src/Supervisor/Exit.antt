-- ===== src/Supervisor/Exit.antt =====
-- What the program returns, and what it has done by then.
use chur.Base.{
  append_assoc, ℕ, Bool, false, Bool-cases, ◌⊎◌, [], ◌∷◌, ◌++◌, Option, none, some, List, ◌≡◌, ◌≢◌,
  inl, inr, refl, ◌∙◌, ap,
}
use chur.Supervisor.Notify.{IsNotified, kept_first, stored, notify-IsNotified}
use chur.Supervisor.Errors.{first_of, Run-IsKept}
use chur.Supervisor.{
  Which, health, main, Worker, finished, returned, Note, shut, Phase, waiting, closing_health,
  closing_main, joining, exited, State, Program, keeper_program, webhook_program, get, set, initial,
  first_close, result, Step, closed, ended, notified, stopped, received, health_closed, main_closed,
  joined, Event, signalled, failed, Run, start, step, event,
}

module _ {E : Type 0} where
  -- Shutdown of this server has returned, with this error if there was one.
  abbrev pub Shut : Which → Option E → List (Note E) → Type 0
  Shut w o es =
      (before : List (Note E)) × (after : List (Note E)) × (es ≡ before ++ shut w o ∷ after)

  -- There is no health server, or it has been shut down.
  abbrev pub HealthShut : Program E → List (Note E) → Type 0
  HealthShut p es = (p.has_health ≡ false) ⊎ ((o : Option E) × Shut health o es)

  Shut-append :
      (w : Which) (o : Option E) (es new : List (Note E)) → Shut w o es → Shut w o (es ++ new)
  Shut-append w o es new (before, after, e) =
      (before, after ++ new, rw e (append_assoc before (shut w o ∷ after) new))

  Shut-last : (w : Which) (o : Option E) (es : List (Note E)) → Shut w o (es ++ shut w o ∷ [])
  Shut-last w o es = (es, [], refl)

  HealthShut-append :
      (p : Program E) (es new : List (Note E)) → HealthShut p es → HealthShut p (es ++ new)
  HealthShut-append p es new (inl h) = inl h
  HealthShut-append p es new (inr (o, h)) = inr (o, Shut-append health o es new h)

  -- What the last Shutdown returned is kept.
  abbrev Kept : Program E → List (Note E) → Option E → Type 0
  Kept p es o = (x : Option E) × Shut main x es × (o ≡ p.kept x)

  -- What holds when the Shutdowns have returned, and when the program has.
  IsReturned : Program E → List (Note E) → Option E → Worker E → Worker E → Phase E → Type 0
  IsReturned p es f h m waiting = Unit
  IsReturned p es f h m closing_health = Unit
  IsReturned p es f h m closing_main = HealthShut p es
  IsReturned p es f h m (joining o) = HealthShut p es × Kept p es o
  IsReturned p es f h m (exited r) =
      (h ≡ finished)
      × (m ≡ finished)
      × HealthShut p es
      × ((o : Option E) × Kept p es o × (r ≡ result f o))

  abbrev Returned : Program E → List (Note E) → State E → Type 0
  Returned p es s = IsReturned p es s.first_err s.health s.main s.phase

  Kept-append :
      (p : Program E) (es new : List (Note E)) (o : Option E) → Kept p es o → Kept p (es ++ new) o
  Kept-append p es new o (x, s, q) = (x, Shut-append main x es new s, q)

  IsReturned-append :
      (p : Program E) (es new : List (Note E)) (f : Option E) (h m : Worker E) (phase : Phase E)
      → IsReturned p es f h m phase
      → IsReturned p (es ++ new) f h m phase
  unfolding IsReturned
  IsReturned-append p es new f h m waiting r = tt
  IsReturned-append p es new f h m closing_health r = tt
  IsReturned-append p es new f h m closing_main r = HealthShut-append p es new r
  IsReturned-append p es new f h m (joining o) (c, k) =
      (HealthShut-append p es new c, Kept-append p es new o k)
  IsReturned-append p es new f h m (exited r) (a, b, c, (o, k, q)) =
      (a, b, HealthShut-append p es new c, (o, Kept-append p es new o k, q))

  first_close-IsReturned :
      (p : Program E) (es : List (Note E)) (f : Option E) (h m : Worker E)
      → IsReturned p es f h m (first_close p)
  unfolding first_close IsReturned
  first_close-IsReturned p es f h m = elim (Bool-cases p.has_health) [
    | inl t ↦ rw t tt
    | inr t ↦ rw t (inl refl)
  ]

  -- A goroutine that has not ended shows that the program has not returned.
  moved :
      (p : Program E) (es : List (Note E)) (phase : Phase E) (f f' : Option E) (w : Which)
      (x : Worker E) (s : State E)
      → get w s ≢ finished
      → IsReturned p es f s.health s.main phase
      → IsReturned p es f' (set w x s).health (set w x s).main phase
  unfolding IsReturned get
  moved p es waiting f f' w x s n r = tt
  moved p es closing_health f f' w x s n r = tt
  moved p es closing_main f f' w x s n r = r
  moved p es (joining o) f f' w x s n r = r
  moved p es (exited o) f f' health x s n (a, b, c, k) = absurd (n a)
  moved p es (exited o) f f' main x s n (a, b, c, k) = absurd (n b)

  notified-Returned :
      (p : Program E) (es : List (Note E)) (w : Which) (e : E) (s t : State E)
      → get w s ≡ returned (some e)
      → IsNotified e s t
      → Returned p es s
      → Returned p es (set w finished t)
  unfolding set
  notified-Returned p es w e s t g (kept_first f h q) r =
      rw q (unfold set in moved p es s.phase _ _ w finished s (λ n. cc) r)
  notified-Returned p es w e s t g (stored h z q) r =
      rw q (unfold set in moved p es s.phase _ _ w finished s (λ n. cc) r)

  -- What a step makes of what held before it, for what has been shown by its end.
  Step-Returned :
      {p : Program E} (es : List (Note E)) {new : List (Note E)} {s t : State E}
      → Step p new s t
      → Returned p (es ++ new) s
      → Returned p (es ++ new) t
  unfolding IsReturned
  Step-Returned {p} es (closed w s g c) r = unfold set in moved p _ s.phase _ _ w _ s (λ n. cc) r
  Step-Returned {p} es (ended w s g) r = unfold set in moved p _ s.phase _ _ w _ s (λ n. cc) r
  Step-Returned {p} es (notified w e s t g n) r =
      notified-Returned p _ w e s t g (notify-IsNotified e s t n) r
  Step-Returned {p} es (stopped s h c) r = first_close-IsReturned p _ _ _ _
  Step-Returned {p} es (received s n h q) r = first_close-IsReturned p _ _ _ _
  Step-Returned es (health_closed s o h) r = inr (o, Shut-last health o es)
  Step-Returned {p} es (main_closed s o h) r =
      let c : IsReturned p (es ++ shut main o ∷ []) s.first_err s.health s.main closing_main =
        rw h at r in
      (c, (o, Shut-last main o es, refl))
  Step-Returned {p} es (joined s o h i j) r =
      let (c, k) : IsReturned p (es ++ []) s.first_err s.health s.main (joining o) = rw h at r in
      (i, j, c, (o, k, refl))

  event-Returned :
      (p : Program E) (es : List (Note E)) {s t : State E}
      → Event s t
      → Returned p es s
      → Returned p es t
  event-Returned p es (signalled s h) r = r
  event-Returned p es (failed w e s g) r = unfold set in moved p es s.phase _ _ w _ s (λ n. cc) r

  Run-Returned :
      {p : Program E} {n : ℕ} {es : List (Note E)} {s : State E} → Run p n es s → Returned p es s
  unfolding IsReturned initial
  Run-Returned start = tt
  Run-Returned {p} (step {es = es} {new = new} {s = s} r t) =
      Step-Returned es t (IsReturned-append p es new _ _ _ s.phase (Run-Returned r))
  Run-Returned {p} (event {es = es} r t) = event-Returned p es t (Run-Returned r)

  -- When the program has returned, both goroutines have ended, every server has been shut down, and
  -- it has returned the first error that was notified or, if there was none, what it keeps of the
  -- error with which the last Shutdown returned.
  pub Run-result :
      (p : Program E) (o : Option E) {n : ℕ} {es : List (Note E)} {s : State E}
      → Run p n es s
      → s.phase ≡ exited o
      → (s.health ≡ finished)
        × (s.main ≡ finished)
        × HealthShut p es
        × ((x : Option E) × Shut main x es × (o ≡ result (first_of es) (p.kept x)))
  unfolding IsReturned
  Run-result p o {es = es} {s = s} r h =
      let k : Returned p es s = Run-Returned r in
      let (a, b, c, (y, (x, d, q), u)) : IsReturned p es s.first_err s.health s.main (exited o) =
        rw h at k in
      let first = ap (λ f. result f y) (Run-IsKept r).first in
      (a, b, c, (x, d, u ∙ first ∙ ap (result (first_of es)) q))

  -- The errors of a list, with one that is returned only where there is none before it.
  pub first_or : Option E → Option E → Option E
  first_or none last = last
  first_or (some e) last = some e

  result-first_or : (f o : Option E) → result f o ≡ first_or f o
  unfolding result first_or
  result-first_or none o = refl
  result-first_or (some e) o = refl

  result-none : (f : Option E) → result f none ≡ f
  unfolding result
  result-none none = refl
  result-none (some e) = refl

  -- When Serve of the keeper has returned, both goroutines have ended, the health server, if there
  -- is one, and the server have been shut down, and Serve has returned the first error that was
  -- notified or, if there was none, the error with which Shutdown of the server returned.
  pub keeper_program-result :
      (has_health : Bool) (o : Option E) {n : ℕ} {es : List (Note E)} {s : State E}
      → Run (keeper_program has_health) n es s
      → s.phase ≡ exited o
      → (s.health ≡ finished)
        × (s.main ≡ finished)
        × ((has_health ≡ false) ⊎ ((y : Option E) × Shut health y es))
        × ((x : Option E) × Shut main x es × (o ≡ first_or (first_of es) x))
  keeper_program-result has_health o {es = es} r h =
      let (a, b, c, (x, d, q)) = Run-result (keeper_program has_health) o r h in
      (a, b, c, (x, d, q ∙ result-first_or (first_of es) x))

  -- When run of the webhook has returned, both goroutines have ended, both servers have been shut
  -- down, whatever error that gave, and the result is the first error that was notified, if any.
  pub webhook_program-result :
      (o : Option E) {n : ℕ} {es : List (Note E)} {s : State E}
      → Run webhook_program n es s
      → s.phase ≡ exited o
      → (s.health ≡ finished)
        × (s.main ≡ finished)
        × ((y : Option E) × Shut health y es)
        × ((x : Option E) × Shut main x es)
        × (o ≡ first_of es)
  webhook_program-result o {es = es} r h =
      let (a, b, c, (x, d, q)) = Run-result webhook_program o r h in
      let health_shut : (y : Option E) × Shut health y es = elim c [
        | inl t ↦ absurd (cc)
        | inr y ↦ y
      ] in
      (a, b, health_shut, (x, d), q ∙ result-none (first_of es))
