-- ===== src/Slots.antt =====
-- The requests of a server on its semaphore: ServeHTTP (internal/webhook/server.go) and
-- handleGetSecret (internal/keeper/server.go). The semaphore is a channel with a buffer, and the
-- requests interleave in any order; what a request does with its slot is its handler's.
pub mod Held
pub mod Free
use chur.Base.{
  ℕ, zero, suc, ◌+◌, ◌-◌, ◌<◌, List, [], ◌∷◌, ◌++◌, ◌≡◌, Bool, true, false, if◌then◌else◌, Option,
  none, some, Result, ok, err, ◌>>=◌, ◌>>◌, check,
}
use chur.Base.Int.{ℤ, pos, negsuc, ltb_ℤ}
use chur.Webhook.Config.{Config, default_config}

-- A request waits at the select, holds a slot, or has been answered.
pub data Request : Type 0 where
  waiting holding answered : Request

-- The tokens in the channel, and the requests in the order of their arrival.
pub record State : Type 0 where
  pub taken : ℕ
  pub requests : List Request

abbrev pub initial : State
initial = record { taken = 0; requests = [] }

-- One action of a request, among the others.
pub data Step (capacity : ℕ) : State → State → Type 0 where
  arrived :
      (taken : ℕ) (rs : List Request)
      → Step capacity
          (record { taken = taken; requests = rs })
          (record { taken = taken; requests = rs ++ waiting ∷ [] })
  -- `sem <- struct{}{}`, which needs room in the buffer.
  took :
      (taken : ℕ) (before after : List Request)
      → taken < capacity
      → Step capacity
          (record { taken = taken; requests = before ++ waiting ∷ after })
          (record { taken = taken + 1; requests = before ++ holding ∷ after })
  -- The context ended first: the answer is 503.
  gave_up :
      (taken : ℕ) (before after : List Request)
      → Step capacity
          (record { taken = taken; requests = before ++ waiting ∷ after })
          (record { taken = taken; requests = before ++ answered ∷ after })
  -- The deferred `<-sem`.
  released :
      (taken : ℕ) (before after : List Request)
      → Step capacity
          (record { taken = taken + 1; requests = before ++ holding ∷ after })
          (record { taken = taken; requests = before ++ answered ∷ after })

pub data Reach (capacity : ℕ) : State → Type 0 where
  start : Reach capacity initial
  next : {s t : State} → Reach capacity s → Step capacity s t → Reach capacity t

-- The server that NewServer makes: its configuration and the capacity of its semaphore.
pub record Server : Type 0 where
  pub cfg : Config
  pub capacity : ℤ

unfoldable pub or_default : Option Config → Config
unfolding default_config
or_default none = default_config
or_default (some cfg) = cfg

-- NewServer, with the results of registering the Kubernetes types.
unfoldable pub new_server : {E : Type 0} → Option E → Option E → Option Config → Result E Server
unfolding or_default
new_server add_core add_admission cfg = do
  check add_core
  check add_admission
  ok (record {
    cfg = or_default cfg;
    capacity =
        if ltb_ℤ (pos 0) (or_default cfg).max_concurrent
        then (or_default cfg).max_concurrent
        else pos 100;
  })
