-- ===== src/Keeper/Handler.antt =====
-- The handler of POST /v1/secrets/get (internal/keeper/server.go). The backend, the JSON decoder
-- and the choice of `select` are parameters; durations, log records and the result of writing the
-- response are not modelled.
pub mod Answers
use chur.Base.{
  ℕ, ◌+◌, ◌-◌, Bool, true, false, not, Option, none, some, List, [], ◌∷◌, ◌++◌, if◌then◌else◌,
  Result, ok, err, length,
}
use chur.Base.Int.{ℤ, pos, ltb_ℤ}
use chur.Text.{Text, bytes, is_empty, text_eq}
use chur.Validate.{Reason, validate_keeper_ref}

-- The parts of an *http.Request that the handler reads.
pub record HttpRequest : Type 0 where
  pub method : Text
  pub path : Text
  pub body : Text

-- The status and the body: the message of an error, or a secret.
pub data Reply : Type 0 where
  failure : ℕ → Text → Reply
  secret : Text → Reply

abbrev pub status : Reply → ℕ
status (failure code msg) = code
status (secret content) = 200

-- The server's state that requests share: the slots that are taken, the gauge of concurrent
-- requests, and the counter of requests by their result.
pub record Shared : Type 0 where
  pub taken : ℕ
  pub in_flight : ℕ
  pub results : List Text

abbrev pub acquire : Shared → Shared
acquire s = record s { taken = s.taken + 1; in_flight = s.in_flight + 1 }

abbrev pub release : Shared → Shared
release s = record s { taken = s.taken - 1; in_flight = s.in_flight - 1 }

-- recordKeeperMetric
abbrev pub record_metric : Shared → Text → Shared
record_metric s result = record s { results = s.results ++ result ∷ [] }

-- A request that holds a slot gives it back on every path: the deferred call.
unfoldable pub released : Reply × Shared → Reply × Shared
released (reply, s) = (reply, release s)

module _ {ℓ} {E : Type ℓ} where
  -- What the backend returned.
  unfoldable pub reply_backend : ℤ → Shared → Result E Text → Reply × Shared
  reply_backend max_size s (err e) =
      (failure 500 (bytes "internal server error"), record_metric s (bytes "error"))
  reply_backend max_size s (ok content) =
      if ltb_ℤ max_size (pos (length content))
      then (failure 413 (bytes "secret exceeds max size"), record_metric s (bytes "error"))
      else (secret content, record_metric s (bytes "ok"))

  -- The ref of the decoded request, if it could be decoded.
  unfoldable pub reply_ref : (Text → Result E Text) → ℤ → Shared → Option Text → Reply × Shared
  unfolding reply_backend
  reply_ref backend max_size s none =
      (failure 400 (bytes "invalid request body"), record_metric s (bytes "error"))
  reply_ref backend max_size s (some ref) =
      if is_empty ref
      then (failure 400 (bytes "ref is required"), record_metric s (bytes "error"))
      else elim (validate_keeper_ref ref) [
        | some e ↦ (failure 400 (bytes "invalid ref"), record_metric s (bytes "error"))
        | none ↦ reply_backend max_size s (backend ref)
      ]

  -- `decode` reads at most 1 MiB of the body; `got_slot` is whether `select` took the slot or the
  -- end of the request's context.
  unfoldable pub handle_get_secret :
      (Text → Option Text)
      → (Text → Result E Text)
      → ℤ
      → Bool
      → Shared
      → HttpRequest
      → Reply × Shared
  unfolding reply_ref released
  handle_get_secret decode backend max_size got_slot s r =
      if not (text_eq r.method (bytes "POST"))
      then (failure 405 (bytes "method not allowed"), s)
      else if not (text_eq r.path (bytes "/v1/secrets/get"))
      then (failure 404 (bytes "not found"), s)
      else if not got_slot
      then (failure 503 (bytes "server busy"), s)
      else released (reply_ref backend max_size (acquire s) (decode r.body))
