-- ===== src/ReadUtil.antt =====
-- internal/readutil/read.go. The goroutine's read and the context race: the environment decides
-- which of the two channels `select` takes.
pub mod Bounded
use chur.Base.{
  ℕ, zero, suc, ◌+◌, Bool, true, false, Option, none, some, if◌then◌else◌, Result, ok, err, length,
}
use chur.Base.Int.{ℤ, pos, ltb_ℤ, succ_int64}
use chur.Text.{Text}
use chur.Io.{Stream, read_limited}

pub data ReadError {ℓ} (E : Type ℓ) : Type ℓ where
  cancelled : E → ReadError E
  read_failed : E → ReadError E
  too_large : ReadError E

-- The case that `select` takes: the context's end, with its error, or the read's result.
pub data Race {ℓ} (E : Type ℓ) : Type ℓ where
  ctx_done : E → Race E
  read_done : Race E

-- The reader behind the call: what it delivers, and whether it has been closed.
pub record Reader {ℓ} (E : Type ℓ) : Type ℓ where
  pub stream : Stream E
  pub closed : Bool

module _ {ℓ} {E : Type ℓ} where
  -- The checks on the bytes that were read.
  unfoldable pub check_read : ℤ → Text × Option E → Result (ReadError E) Text
  check_read max_size (bytes_read, some e) = err (read_failed e)
  check_read max_size (bytes_read, none) =
      if ltb_ℤ max_size (pos (length bytes_read)) then err too_large else ok bytes_read

  unfoldable pub read_with_context : Race E → ℤ → Reader E → Result (ReadError E) Text × Reader E
  unfolding check_read
  read_with_context (ctx_done e) max_size r = (err (cancelled e), record r { closed = true })
  read_with_context read_done max_size r = (
    check_read max_size (read_limited (succ_int64 max_size) r.stream),
    record r { closed = true },
  )
