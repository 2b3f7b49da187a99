-- ===== src/Tests/Servers.antt =====
-- The two servers of a program in concrete runs.
use chur.Base.{ℕ, false, true, List, Option, none, some, [], ◌∷◌, ◌≡◌, refl, ◌⊎◌}
use chur.Supervisor.{
  Which, health, main, Note, told, shut, closing_health, closing_main, joining, finished, returned,
  exited, State, Program, keeper_program, webhook_program, get, set, initial, notify, closing,
  result, Step, closed, ended, notified, stopped, received, health_closed, main_closed, joined,
  Event, signalled, failed, Run, start, step, event,
}
use chur.Supervisor.Ends.{Ends, initial-Ends}
use chur.Supervisor.Errors.{first_of}
use chur.Supervisor.Progress.{IsIdle, CanStep, Run-CanStep}
use chur.Supervisor.Exit.{Shut, first_or, keeper_program-result}

-- A keeper without a health server, whose server fails with the error 7.
abbrev keeper : Program ℕ
keeper = keeper_program false

abbrev failing : State ℕ
failing = set main (returned (some 7)) (initial keeper)

server_fails : Run keeper 1 [] failing
unfolding get initial
server_fails = event start (failed main 7 (initial keeper) refl)

abbrev told_state : State ℕ
told_state = record (set main finished (initial keeper)) { first_err = some 7; queue = 1 }

error_told : Run keeper 2 (told 7 ∷ []) told_state
unfolding get set initial notify
error_told =
    step server_fails
      (notified main 7 failing (record failing { first_err = some 7; queue = 1 }) refl refl)

abbrev stopping : State ℕ
stopping = record told_state { ctx_done = true; queue = 0; phase = closing_main }

select_woken : Run keeper 3 (told 7 ∷ []) stopping
unfolding set initial chur.Supervisor.first_close
select_woken = step error_told (received told_state 0 refl refl)

abbrev stopped_state : State ℕ
stopped_state = record stopping { phase = exited (some 7) }

abbrev shown : List (Note ℕ)
shown = told 7 ∷ shut main none ∷ []

keeper_returns : Run keeper 5 shown stopped_state
unfolding set initial result
keeper_returns =
    step (step select_woken (main_closed stopping none refl))
      (joined (record stopping { phase = joining none }) none refl refl refl)

Run-CanStep_example :
    ((o : Option ℕ) × (failing.phase ≡ exited o)) ⊎ IsIdle keeper failing ⊎ CanStep keeper failing
Run-CanStep_example = Run-CanStep keeper server_fails

keeper_program-result_example :
    (stopped_state.health ≡ finished)
    × (stopped_state.main ≡ finished)
    × ((false ≡ false) ⊎ ((y : Option ℕ) × Shut health y shown))
    × ((x : Option ℕ) × Shut main x shown × (some 7 ≡ first_or (first_of shown) x))
keeper_program-result_example = keeper_program-result false (some 7) keeper_returns refl

initial-Ends_example : Ends keeper 9 [] (initial keeper)
initial-Ends_example = initial-Ends keeper

abbrev both_shut : List (Note ℕ)
both_shut = shut health none ∷ shut main (some 3) ∷ []

-- The webhook after a signal: its servers are shut down, the second one with an error, and return.
abbrev signalled_state : State ℕ
signalled_state = record (initial webhook_program) { ctx_done = true }

abbrev both_closing : State ℕ
both_closing = record signalled_state { phase = joining none }

both_shut_down : Run webhook_program 4 both_shut both_closing
unfolding initial chur.Supervisor.first_close
both_shut_down =
    step
      (step
        (step (event start (signalled (initial webhook_program) refl))
          (stopped signalled_state refl refl))
        (health_closed (record signalled_state { phase = closing_health }) none refl))
      (main_closed (record signalled_state { phase = closing_main }) (some 3) refl)

abbrev health_closed_state : State ℕ
health_closed_state = record both_closing { health = finished }

health_ended : Run webhook_program 6 both_shut health_closed_state
unfolding initial get set closing
health_ended =
    step (step both_shut_down (closed health both_closing refl refl))
      (ended health (record both_closing { health = returned none }) refl)

abbrev webhook_exited : State ℕ
webhook_exited = record both_closing { health = finished; main = finished; phase = exited none }

webhook_returns : Run webhook_program 9 both_shut webhook_exited
unfolding initial get set closing result
webhook_returns =
    step
      (step (step health_ended (closed main health_closed_state refl refl))
        (ended main (record health_closed_state { main = returned none }) refl))
      (joined (record health_closed_state { main = finished }) none refl refl refl)
