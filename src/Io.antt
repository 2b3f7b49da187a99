-- ===== src/Io.antt =====
-- What the program uses of Go's package io: a reader as the bytes that it will deliver and the
-- error, if any, that follows them, and a read up to a limit that is an int64.
use chur.Base.{
  ℕ, zero, suc, ◌+◌, ◌≤◌, ◌<◌, Bool, true, false, Option, none, some, ◌≡◌, refl, arith, ltb, leb,
  if◌then◌else◌, Bool-cases, length, take, take_all, length-take,
}
use chur.Base.Int.{ℤ, pos, negsuc}
use chur.Text.{Text}

pub record Stream {ℓ} (E : Type ℓ) : Type ℓ where
  pub content : Text
  pub failure : Option E

module _ {ℓ} {E : Type ℓ} where
  -- io.ReadAll(io.LimitReader(r, n)): a limit that is not positive ends the read at once, and an
  -- error of the reader is met only behind its bytes.
  unfoldable pub read_limited : ℤ → Stream E → Text × Option E
  read_limited (negsuc n) s = (chur.Base.[], none)
  read_limited (pos n) s =
      if leb n (length s.content) then (take n s.content, none) else (s.content, s.failure)

  pub length-read_limited : (n : ℕ) (s : Stream E) → length (read_limited (pos n) s).0 ≤ n
  unfolding read_limited
  length-read_limited n s = ground (arith, length-take n s.content)
