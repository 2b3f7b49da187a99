-- ===== src/Supervisor/Notify.antt =====
-- What notifyErr does to the state.
use chur.Base.{Option, none, some, ◌≡◌, inl, inr, refl, sym, ltb, Bool-cases, ◌∙◌, arith}
use mathlib.Core.Option.{some_inj}
use chur.Supervisor.{State, notify_after, notify}

module _ {E : Type 0} where
  -- notifyErr keeps the first error, or stores this one and puts a token into the empty channel.
  pub data IsNotified (e : E) (s t : State E) : Type 0 where
    kept_first : (f : E) → s.first_err ≡ some f → t ≡ s → IsNotified e s t
    stored :
        s.first_err ≡ none
        → s.queue ≡ 0
        → t ≡ record s { first_err = some e; queue = 1 }
        → IsNotified e s t

  notify_after-IsNotified :
      (o : Option E) (e : E) (s : State E) {t : State E}
      → s.first_err ≡ o
      → notify_after o e s ≡ some t
      → IsNotified e s t
  unfolding notify_after
  notify_after-IsNotified (some f) e s q h = kept_first f q (sym (some_inj.0 h))
  notify_after-IsNotified none e s q h = elim (Bool-cases (ltb s.queue 1)) [
    | inr l ↦ absurd (cc (rw l at h))
    | inl l ↦
        let z : s.queue ≡ 0 = ground arith in stored q z (sym (some_inj.0 (rw l at h)) ∙ rw z refl)
  ]

  pub notify-IsNotified : (e : E) (s t : State E) → notify e s ≡ some t → IsNotified e s t
  unfolding notify
  notify-IsNotified e s t h = notify_after-IsNotified s.first_err e s refl h
