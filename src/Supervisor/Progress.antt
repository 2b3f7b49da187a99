-- ===== src/Supervisor/Progress.antt =====
-- No run gets stuck.
use chur.Base.{
  ℕ, zero, suc, true, false, Bool-cases, Option, none, some, List, [], ◌∷◌, ◌≡◌, ◌⊎◌, inl, inr,
  refl, arith,
}
use chur.Supervisor.Errors.{Run-IsKept, notify-sends}
use chur.Supervisor.Explained.{IsExplained, Run-Explained}
use chur.Supervisor.{
  Which, health, main, Worker, serving, finished, returned, Note, told, Phase, waiting,
  closing_health, closing_main, joining, exited, State, Program, get, set, closing, Step, closed,
  ended, notified, stopped, received, health_closed, main_closed, joined, Run,
}

module _ {E : Type 0} where
  -- The server serves and nothing has been asked of it, or there is no such server.
  abbrev pub IsQuiet : Program E → Which → Worker E → Type 0
  IsQuiet p w x = (x ≡ serving) ⊎ ((x ≡ finished) × (w ≡ health) × (p.has_health ≡ false))

  -- Nothing has happened yet: no signal has come and no server has failed.
  pub record IsIdle (p : Program E) (s : State E) : Type 0 where
    pub at_select : s.phase ≡ waiting
    pub no_signal : s.ctx_done ≡ false
    pub no_error : s.first_err ≡ none
    pub servers : IsQuiet p health s.health × IsQuiet p main s.main

  abbrev pub CanStep : Program E → State E → Type 0
  CanStep p s = (es : List (Note E)) × (t : State E) × Step p es s t

  -- A goroutine whose server has returned with an error can notify it.
  can_notify :
      (p : Program E) (w : Which) (e : E) {n : ℕ} {es : List (Note E)} {s : State E}
      → Run p n es s
      → get w s ≡ returned (some e)
      → CanStep p s
  can_notify p w e {s = s} r g =
      let (t, m) = notify-sends p e r in (told e ∷ [], set w finished t, notified w e s t g m)

  -- Before a server is asked to close, its goroutine is quiet or can step.
  worker_waiting :
      (p : Program E) (w : Which) (x : Worker E) {n : ℕ} {es : List (Note E)} {s : State E}
      → Run p n es s
      → s.phase ≡ waiting
      → s.first_err ≡ none
      → get w s ≡ x
      → IsExplained p s.first_err s.phase w x
      → IsQuiet p w x ⊎ CanStep p s
  unfolding IsExplained closing
  worker_waiting p w serving r h f g x = inl (inl refl)
  worker_waiting p w (returned none) {s = s} r h f g x = inr ([], set w finished s, ended w s g)
  worker_waiting p w (returned (some e)) r h f g x = inr (can_notify p w e r g)
  worker_waiting p w finished r h f g (inl c) = absurd (cc (rw h at c))
  worker_waiting p w finished r h f g (inr (inl n)) = absurd (n f)
  worker_waiting p w finished r h f g (inr (inr (a, b))) = inl (inr (refl, a, b))

  -- Once it is asked to close, its goroutine has ended or can step.
  worker_closing :
      (p : Program E) (w : Which) (x : Worker E) {n : ℕ} {es : List (Note E)} {s : State E}
      → Run p n es s
      → closing s.phase w ≡ true
      → get w s ≡ x
      → (get w s ≡ finished) ⊎ CanStep p s
  worker_closing p w serving {s = s} r c g = inr ([], set w (returned none) s, closed w s g c)
  worker_closing p w (returned none) {s = s} r c g = inr ([], set w finished s, ended w s g)
  worker_closing p w (returned (some e)) r c g = inr (can_notify p w e r g)
  worker_closing p w finished r c g = inl g

  -- The goroutine that waits for both others can go on when they have ended.
  can_join :
      (p : Program E) (o : Option E) (s : State E)
      → s.phase ≡ joining o
      → (get health s ≡ finished) ⊎ CanStep p s
      → (get main s ≡ finished) ⊎ CanStep p s
      → CanStep p s
  unfolding get
  can_join p o s h (inl a) (inl b) = ([], _, joined s o h a b)
  can_join p o s h (inl a) (inr c) = c
  can_join p o s h (inr c) b = c

  select_quiet :
      (p : Program E) (s : State E)
      → s.phase ≡ waiting
      → s.ctx_done ≡ false
      → s.first_err ≡ none
      → IsQuiet p health s.health ⊎ CanStep p s
      → IsQuiet p main s.main ⊎ CanStep p s
      → IsIdle p s ⊎ CanStep p s
  select_quiet p s h c f (inl a) (inl b) =
      inl (record { at_select = h; no_signal = c; no_error = f; servers = (a, b) })
  select_quiet p s h c f (inl a) (inr k) = inr k
  select_quiet p s h c f (inr k) b = inr k

  -- The select, by the tokens in the channel and the first error.
  select_tokens :
      (p : Program E) (q : ℕ) (o : Option E) {n : ℕ} {es : List (Note E)} {s : State E}
      → Run p n es s
      → s.phase ≡ waiting
      → s.ctx_done ≡ false
      → s.queue ≡ q
      → s.first_err ≡ o
      → IsIdle p s ⊎ CanStep p s
  unfolding get
  select_tokens p (suc q) o {s = s} r h c z f = inr ([], _, received s q h z)
  select_tokens p zero (some e) {s = s} r h c z f =
      absurd (omega (arith, z, (Run-IsKept r).pending h (λ n. cc)))
  select_tokens p zero none {s = s} r h c z f =
      let (a, b) = Run-Explained r in
      select_quiet p s h c f (worker_waiting p health s.health r h f refl a)
        (worker_waiting p main s.main r h f refl b)

  at_phase :
      (p : Program E) (phase : Phase E) {n : ℕ} {es : List (Note E)} {s : State E}
      → Run p n es s
      → s.phase ≡ phase
      → ((o : Option E) × (s.phase ≡ exited o)) ⊎ IsIdle p s ⊎ CanStep p s
  unfolding closing
  at_phase p waiting {s = s} r h = inr (elim (Bool-cases s.ctx_done) [
    | inl t ↦ inr ([], _, stopped s h t)
    | inr t ↦ select_tokens p s.queue s.first_err r h t refl refl
  ])
  at_phase p closing_health {s = s} r h = inr (inr (_, _, health_closed s none h))
  at_phase p closing_main {s = s} r h = inr (inr (_, _, main_closed s none h))
  at_phase p (joining o) {s = s} r h = inr (
      inr (
        can_join p o s h (worker_closing p health _ r (rw h refl) refl)
          (worker_closing p main _ r (rw h refl) refl)))
  at_phase p (exited o) r h = inl (o, h)

  -- A run never gets stuck: the program has returned, or it is idle, with no signal, no error and
  -- every server serving, or it has a step of its own.
  pub Run-CanStep :
      (p : Program E) {n : ℕ} {es : List (Note E)} {s : State E}
      → Run p n es s
      → ((o : Option E) × (s.phase ≡ exited o)) ⊎ IsIdle p s ⊎ CanStep p s
  Run-CanStep p {s = s} r = at_phase p s.phase r refl
