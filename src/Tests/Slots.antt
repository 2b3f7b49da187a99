-- ===== src/Tests/Slots.antt =====
-- Two requests on a semaphore with one slot.
use chur.Base.{[], ◌∷◌, refl, arith}
use chur.Slots.{waiting, holding, State, arrived, took, Reach, start, next}
use chur.Slots.Free.{CanGo, Reach-CanGo}

-- The first holds the slot, and the second waits for it.
abbrev full : State
full = record { taken = 1; requests = holding ∷ waiting ∷ [] }

full_reached : Reach 1 full
full_reached =
    next (next (next start (arrived 0 [])) (took 0 [] [] (omega arith))) (arrived 1 (holding ∷ []))

Reach-CanGo_example : CanGo 1 full (holding ∷ []) []
Reach-CanGo_example = Reach-CanGo 1 (holding ∷ []) [] (omega arith) full_reached refl
