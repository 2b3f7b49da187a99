-- ===== src/Supervisor/Errors.antt =====
-- The first error of a run, its token, and the result.
use chur.Base.{
  ℕ, suc, Bool-cases, Option, none, some, List, [], ◌∷◌, ◌++◌, append-nil, ◌≡◌, ◌≢◌, ◌⊎◌, inl, inr,
  refl, sym, ◌∙◌, arith,
}
use chur.Supervisor.Notify.{IsNotified, kept_first, stored, notify-IsNotified}
use chur.Supervisor.{
  Which, health, main, Note, told, shut, Phase, waiting, closing_main, State, Program, set, initial,
  notify_after, notify, first_close, Step, closed, ended, notified, stopped, received,
  health_closed, main_closed, joined, Event, signalled, failed, Run, start, step, event,
}

module _ {E : Type 0} where
  pub first_of : List (Note E) → Option E
  first_of [] = none
  first_of (told e ∷ es) = some e
  first_of (shut w o ∷ es) = first_of es

  -- The error that is kept, the tokens in the channel, and the errors that were notified.
  pub record IsKept (o : Option E) (queue : ℕ) (phase : Phase E) (es : List (Note E)) : Type 0 where
    pub queued : (queue ≡ 0) ⊎ ((queue ≡ 1) × (o ≢ none))
    pub pending : phase ≡ waiting → o ≢ none → queue ≡ 1
    pub first : o ≡ first_of es

  abbrev KeptIn : State E → List (Note E) → Type 0
  KeptIn s es = IsKept s.first_err s.queue s.phase es

  first_of-append :
      (es fs : List (Note E)) {e : E} → first_of es ≡ some e → first_of (es ++ fs) ≡ some e
  unfolding first_of
  first_of-append [] fs h = absurd (cc)
  first_of-append (told e ∷ es) fs h = h
  first_of-append (shut w o ∷ es) fs h = first_of-append es fs h

  first_of-append_none :
      (es : List (Note E)) {e : E} → first_of es ≡ none → first_of (es ++ told e ∷ []) ≡ some e
  unfolding first_of
  first_of-append_none [] h = refl
  first_of-append_none (told e ∷ es) h = absurd (cc)
  first_of-append_none (shut w o ∷ es) h = first_of-append_none es h

  first_of-append_shut :
      (es : List (Note E)) (w : Which) (o : Option E) → first_of (es ++ shut w o ∷ []) ≡ first_of es
  unfolding first_of
  first_of-append_shut [] w o = refl
  first_of-append_shut (told e ∷ es) w o = refl
  first_of-append_shut (shut v x ∷ es) w o = first_of-append_shut es w o

  pub first_close-closes : (p : Program E) → first_close p ≢ waiting
  unfolding first_close
  first_close-closes p h = elim (Bool-cases p.has_health) [
    | inl t ↦ absurd (cc (rw t at h))
    | inr t ↦ absurd (cc (rw t at h))
  ]

  -- After the select, what is kept no longer has a token to wait for.
  past_select :
      {o : Option E} {queue : ℕ} {phase : Phase E} {es : List (Note E)} (next : Phase E)
      → next ≢ waiting
      → IsKept o queue phase es
      → IsKept o queue next es
  past_select next n k = record { queued = k.queued; pending = λ h. absurd (n h); first = k.first }

  shut-IsKept :
      {o : Option E} {queue : ℕ} {phase : Phase E} {es : List (Note E)} (w : Which) (x : Option E)
      (next : Phase E)
      → next ≢ waiting
      → IsKept o queue phase es
      → IsKept o queue next (es ++ shut w x ∷ [])
  shut-IsKept {es = es} w x next n k = record {
    queued = k.queued;
    pending = λ h. absurd (n h);
    first = k.first ∙ sym (first_of-append_shut es w x);
  }

  received-IsKept :
      {o : Option E} {queue : ℕ} {phase : Phase E} {es : List (Note E)} (n : ℕ) (next : Phase E)
      → next ≢ waiting
      → queue ≡ suc n
      → IsKept o queue phase es
      → IsKept o n next es
  received-IsKept n next d q k = record {
    queued = elim k.queued [
      | inl z ↦ absurd (omega (arith, z, q))
      | inr (z, f) ↦ inl (omega (arith, z, q))
    ];
    pending = λ h. absurd (d h);
    first = k.first;
  }

  notified-IsKept :
      {es : List (Note E)} {s t : State E} (e : E)
      → IsNotified e s t
      → KeptIn s es
      → KeptIn t (es ++ told e ∷ [])
  notified-IsKept {es} e (kept_first f h q) k = rw q (record {
    queued = k.queued;
    pending = k.pending;
    first = h ∙ sym (first_of-append es _ (sym k.first ∙ h));
  })
  notified-IsKept {es} e (stored h z q) k = rw q (record {
    queued = inr (refl, λ n. cc);
    pending = λ w n. refl;
    first = sym (first_of-append_none es (sym k.first ∙ h));
  })

  Step-IsKept :
      {p : Program E} {es new : List (Note E)} {s t : State E}
      → Step p new s t
      → KeptIn s es
      → KeptIn t (es ++ new)
  unfolding set
  Step-IsKept {es = es} (closed w s g c) k = rw (append-nil es) k
  Step-IsKept {es = es} (ended w s g) k = rw (append-nil es) k
  Step-IsKept (notified w e s t g n) k = notified-IsKept e (notify-IsNotified e s t n) k
  Step-IsKept {p} {es = es} (stopped s h c) k =
      rw (append-nil es) (past_select (first_close p) (first_close-closes p) k)
  Step-IsKept {p} {es = es} (received s n h q) k =
      rw (append-nil es) (received-IsKept n (first_close p) (first_close-closes p) q k)
  Step-IsKept (health_closed s o h) k = shut-IsKept health o closing_main (λ e. cc) k
  Step-IsKept (main_closed s o h) k = shut-IsKept main o _ (λ e. cc) k
  Step-IsKept {es = es} (joined s o h i j) k = rw (append-nil es) (past_select _ (λ e. cc) k)

  event-IsKept : {es : List (Note E)} {s t : State E} → Event s t → KeptIn s es → KeptIn t es
  unfolding set
  event-IsKept (signalled s h) k = k
  event-IsKept (failed w e s g) k = k

  initial-IsKept : (p : Program E) → KeptIn (initial p) []
  unfolding initial first_of
  initial-IsKept p = record { queued = inl refl; pending = λ h n. absurd (n refl); first = refl }

  pub Run-IsKept :
      {p : Program E} {n : ℕ} {es : List (Note E)} {s : State E} → Run p n es s → KeptIn s es
  Run-IsKept {p} start = initial-IsKept p
  Run-IsKept (step r t) = Step-IsKept t (Run-IsKept r)
  Run-IsKept (event r t) = event-IsKept t (Run-IsKept r)

  notify_after-sends :
      (o : Option E) (e : E) (s : State E)
      → (s.queue ≡ 0) ⊎ ((s.queue ≡ 1) × (o ≢ none))
      → (t : State E) × (notify_after o e s ≡ some t)
  unfolding notify_after
  notify_after-sends (some f) e s q = (s, refl)
  notify_after-sends none e s (inl z) = (record s { first_err = some e; queue = 1 }, rw z refl)
  notify_after-sends none e s (inr (z, n)) = absurd (n refl)

  -- In every state that a run reaches, notifyErr can store its error and send its token: the send
  -- into the channel of capacity one never blocks while the mutex is held.
  pub notify-sends :
      (p : Program E) (e : E) {n : ℕ} {es : List (Note E)} {s : State E}
      → Run p n es s
      → (t : State E) × (notify e s ≡ some t)
  unfolding notify
  notify-sends p e {s = s} r = notify_after-sends s.first_err e s (Run-IsKept r).queued
