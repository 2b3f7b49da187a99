-- ===== src/Supervisor/Explained.antt =====
-- Why a goroutine of a run has ended.
use chur.Base.{ℕ, true, false, Bool-cases, Option, none, some, List, ◌≡◌, ◌≢◌, ◌⊎◌, inl, inr, refl}
use chur.Supervisor.Notify.{IsNotified, kept_first, stored, notify-IsNotified}
use chur.Supervisor.{
  Which, health, main, Worker, serving, finished, returned, Note, Phase, waiting, closing_main,
  State, Program, get, set, initial, closing, Step, closed, ended, notified, stopped, received,
  health_closed, main_closed, joined, Event, signalled, failed, Run, start, step, event,
}

module _ {E : Type 0} where
  -- Why a goroutine has ended: its server was asked to close or an error is kept, or there is none.
  abbrev pub HasReason : Program E → Option E → Phase E → Which → Type 0
  HasReason p o phase w =
      (closing phase w ≡ true) ⊎ (o ≢ none) ⊎ ((w ≡ health) × (p.has_health ≡ false))

  unfoldable pub IsExplained : Program E → Option E → Phase E → Which → Worker E → Type 0
  IsExplained p o phase w serving = Unit
  IsExplained p o phase w (returned none) = closing phase w ≡ true
  IsExplained p o phase w (returned (some e)) = Unit
  IsExplained p o phase w finished = HasReason p o phase w

  abbrev pub Explained : Program E → State E → Type 0
  Explained p s =
      IsExplained p s.first_err s.phase health s.health
      × IsExplained p s.first_err s.phase main s.main

  -- A step that only moves one goroutine.
  set-Explained :
      (p : Program E) (w : Which) (x : Worker E) (s : State E)
      → IsExplained p s.first_err s.phase w x
      → Explained p s
      → Explained p (set w x s)
  unfolding set
  set-Explained p health x s h (a, b) = (h, b)
  set-Explained p main x s h (a, b) = (a, h)

  get-Explained :
      (p : Program E) (w : Which) (s : State E)
      → Explained p s
      → IsExplained p s.first_err s.phase w (get w s)
  unfolding get
  get-Explained p health s (a, b) = a
  get-Explained p main s (a, b) = b

  -- What holds of a phase and an error holds when more servers are asked to close.
  IsExplained-later :
      (p : Program E) (o o' : Option E) (phase next : Phase E) (w : Which) (x : Worker E)
      → (closing phase w ≡ true → closing next w ≡ true)
      → (o ≢ none → o' ≢ none)
      → IsExplained p o phase w x
      → IsExplained p o' next w x
  unfolding IsExplained
  IsExplained-later p o o' phase next w serving c f h = tt
  IsExplained-later p o o' phase next w (returned none) c f h = c h
  IsExplained-later p o o' phase next w (returned (some e)) c f h = tt
  IsExplained-later p o o' phase next w finished c f (inl h) = inl (c h)
  IsExplained-later p o o' phase next w finished c f (inr (inl h)) = inr (inl (f h))
  IsExplained-later p o o' phase next w finished c f (inr (inr h)) = inr (inr h)

  later :
      (p : Program E) (s : State E) (next : Phase E)
      → ((w : Which) → closing s.phase w ≡ true → closing next w ≡ true)
      → Explained p s
      → IsExplained p s.first_err next health s.health × IsExplained p s.first_err next main s.main
  later p s next c (a, b) = (
    IsExplained-later p _ _ s.phase next health _ (c health) (λ h. h) a,
    IsExplained-later p _ _ s.phase next main _ (c main) (λ h. h) b,
  )

  notified-Explained :
      (p : Program E) (e : E) (s t : State E)
      → IsNotified e s t
      → Explained p s
      → Explained p t × (t.first_err ≢ none)
  notified-Explained p e s t (kept_first f h q) x = rw q (x, λ n. cc)
  notified-Explained p e s t (stored h z q) (a, b) = rw q (
    (
      IsExplained-later p _ _ s.phase s.phase health _ (λ c. c) (λ n m. cc) a,
      IsExplained-later p _ _ s.phase s.phase main _ (λ c. c) (λ n m. cc) b,
    ),
    λ n. cc,
  )

  none_closing :
      (phase next : Phase E) (w : Which)
      → phase ≡ waiting
      → closing phase w ≡ true
      → closing next w ≡ true
  unfolding closing
  none_closing phase next w h c = absurd (cc (rw h at c))

  Step-Explained :
      {p : Program E} {es : List (Note E)} {s t : State E}
      → Step p es s t
      → Explained p s
      → Explained p t
  unfolding IsExplained
  Step-Explained {p} (closed w s g c) x = set-Explained p w (returned none) s c x
  Step-Explained {p} (ended w s g) x =
      set-Explained p w finished s (inl (rw g at (get-Explained p w s x))) x
  Step-Explained {p} (notified w e s t g n) x =
      let (y, f) = notified-Explained p e s t (notify-IsNotified e s t n) x in
      set-Explained p w finished t (inr (inl f)) y
  Step-Explained {p} (stopped s h c) x = later p s _ (λ w. none_closing _ _ w h) x
  Step-Explained {p} (received s n h q) x = later p s _ (λ w. none_closing _ _ w h) x
  Step-Explained {p} (health_closed s o h) x =
      later p s closing_main (λ w c. unfold closing in refl) x
  Step-Explained {p} (main_closed s o h) x = later p s _ (λ w c. unfold closing in refl) x
  Step-Explained {p} (joined s o h i j) x = later p s _ (λ w c. unfold closing in refl) x

  event-Explained : (p : Program E) {s t : State E} → Event s t → Explained p s → Explained p t
  unfolding IsExplained
  event-Explained p (signalled s h) x = x
  event-Explained p (failed w e s g) x = set-Explained p w (returned (some e)) s tt x

  initial-Explained : (p : Program E) → Explained p (initial p)
  unfolding initial IsExplained
  initial-Explained p = elim (Bool-cases p.has_health) [
    | inl t ↦ rw t (tt, tt)
    | inr t ↦ rw t (inr (inr (refl, refl)), tt)
  ]

  pub Run-Explained :
      {p : Program E} {n : ℕ} {es : List (Note E)} {s : State E} → Run p n es s → Explained p s
  Run-Explained {p} start = initial-Explained p
  Run-Explained (step r t) = Step-Explained t (Run-Explained r)
  Run-Explained {p} (event r t) = event-Explained p t (Run-Explained r)
