-- ===== src/Supervisor.antt =====
-- How the two servers run and stop their HTTP servers: Serve (internal/keeper/server.go) and the
-- end of run (cmd/webhook/main.go). The goroutines interleave in any order: a step is one action of
-- a goroutine, of the HTTP library or of the environment. notifyErr is one step, since it holds the
-- mutex, and it has a step only where the channel has room for its token.
pub mod Ends
pub mod Errors
pub mod Exit
pub mod Explained
pub mod Notify
pub mod Progress
pub mod Steps
use chur.Base.{
  ℕ, zero, suc, ◌+◌, Bool, true, false, if◌then◌else◌, Option, none, some, List, [], ◌∷◌, ◌++◌, ◌≡◌,
  ltb,
}

-- The server that answers requests, and the one for health and metrics.
pub data Which : Type 0 where
  health main : Which

-- A goroutine: its server serves, or has returned with an error that is not ErrServerClosed, if
-- with any, or the goroutine has ended.
pub data Worker (E : Type 0) : Type 0 where
  serving finished : Worker E
  returned : Option E → Worker E

-- The goroutine that started the servers: at the select, in a Shutdown, at wg.Wait with the error
-- of the shutdown, or after its return with the result.
pub data Phase (E : Type 0) : Type 0 where
  waiting closing_health closing_main : Phase E
  joining exited : Option E → Phase E

pub record State (E : Type 0) : Type 0 where
  pub ctx_done : Bool
  pub first_err : Option E
  pub queue : ℕ
  pub health : Worker E
  pub main : Worker E
  pub phase : Phase E

-- What a run shows: an error that a goroutine passed to notifyErr, and that Shutdown of a server
-- returned, with its error if there was one.
pub data Note (E : Type 0) : Type 0 where
  told : E → Note E
  shut : Which → Option E → Note E

-- What differs between the two programs: whether there is a health server, and what is kept of the
-- error of the last Shutdown. The keeper returns it, and the webhook only logs it.
pub record Program (E : Type 0) : Type 0 where
  pub has_health : Bool
  pub kept : Option E → Option E

abbrev pub keeper_program : {E : Type 0} → Bool → Program E
keeper_program has_health = record { has_health = has_health; kept = λ o. o }

abbrev pub webhook_program : {E : Type 0} → Program E
webhook_program = record { has_health = true; kept = λ o. none }

module _ {E : Type 0} where
  unfoldable pub get : Which → State E → Worker E
  get health s = s.health
  get main s = s.main

  abbrev on_health : Which → Worker E → Worker E → Worker E
  on_health health x old = x
  on_health main x old = old

  abbrev on_main : Which → Worker E → Worker E → Worker E
  on_main health x old = old
  on_main main x old = x

  unfoldable pub set : Which → Worker E → State E → State E
  set w x s = record s { health = on_health w x s.health; main = on_main w x s.main }

  unfoldable pub initial : Program E → State E
  initial p = record {
    ctx_done = false;
    first_err = none;
    queue = 0;
    health = if p.has_health then serving else finished;
    main = serving;
    phase = waiting;
  }

  -- notifyErr, by the first error; the capacity of errCh is 1, and nothing is returned where the
  -- send blocks.
  unfoldable pub notify_after : Option E → E → State E → Option (State E)
  notify_after (some _) e s = some s
  notify_after none e s =
      if ltb s.queue 1 then some (record s { first_err = some e; queue = s.queue + 1 }) else none

  unfoldable pub notify : E → State E → Option (State E)
  unfolding notify_after
  notify e s = notify_after s.first_err e s

  -- The first Shutdown after the select.
  unfoldable pub first_close : Program E → Phase E
  first_close p = if p.has_health then closing_health else closing_main

  -- Whether Shutdown of the server has been called.
  unfoldable pub closing : Phase E → Which → Bool
  closing waiting w = false
  closing closing_health health = true
  closing closing_health main = false
  closing closing_main w = true
  closing (joining o) w = true
  closing (exited o) w = true

  -- `if err := getErr(); err != nil { return err }; return shutdownErr`
  unfoldable pub result : Option E → Option E → Option E
  result none shutdown_err = shutdown_err
  result (some e) shutdown_err = some e

  -- The actions of the program and of the HTTP library, with what they show.
  pub data Step (p : Program E) : List (Note E) → State E → State E → Type 0 where
    -- Serve returns ErrServerClosed once Shutdown has been called.
    closed :
        (w : Which) (s : State E)
        → get w s ≡ serving
        → closing s.phase w ≡ true
        → Step p [] s (set w (returned none) s)
    ended : (w : Which) (s : State E) → get w s ≡ returned none → Step p [] s (set w finished s)
    notified :
        (w : Which) (e : E) (s t : State E)
        → get w s ≡ returned (some e)
        → notify e s ≡ some t
        → Step p (told e ∷ []) s (set w finished t)
    -- The two cases of the select.
    stopped :
        (s : State E)
        → s.phase ≡ waiting
        → s.ctx_done ≡ true
        → Step p [] s (record s { phase = first_close p })
    received :
        (s : State E) (n : ℕ)
        → s.phase ≡ waiting
        → s.queue ≡ suc n
        → Step p [] s (record s { ctx_done = true; queue = n; phase = first_close p })
    -- A Shutdown returns, at the latest with the error of its timeout.
    health_closed :
        (s : State E) (o : Option E)
        → s.phase ≡ closing_health
        → Step p (shut health o ∷ []) s (record s { phase = closing_main })
    main_closed :
        (s : State E) (o : Option E)
        → s.phase ≡ closing_main
        → Step p (shut main o ∷ []) s (record s { phase = joining (p.kept o) })
    joined :
        (s : State E) (o : Option E)
        → s.phase ≡ joining o
        → s.health ≡ finished
        → s.main ≡ finished
        → Step p [] s (record s { phase = exited (result s.first_err o) })

  -- The actions of the environment: a signal ends the context, and a server fails.
  pub data Event : State E → State E → Type 0 where
    signalled : (s : State E) → s.ctx_done ≡ false → Event s (record s { ctx_done = true })
    failed :
        (w : Which) (e : E) (s : State E)
        → get w s ≡ serving
        → Event s (set w (returned (some e)) s)

  -- The runs of n steps, with what they show in its order.
  pub data Run (p : Program E) : ℕ → List (Note E) → State E → Type 0 where
    start : Run p 0 [] (initial p)
    step :
        {n : ℕ} {es new : List (Note E)} {s t : State E}
        → Run p n es s
        → Step p new s t
        → Run p (suc n) (es ++ new) t
    event :
        {n : ℕ} {es : List (Note E)} {s t : State E} → Run p n es s → Event s t → Run p (suc n) es t
