-- ===== src/Keeper/LimitedWriter.antt =====
-- The writer that keeps the first bytes of a command's standard error (internal/keeper/exec/exec.go).
pub mod Kept
use mathlib.Core.List.{reverse}
use chur.Base.{
  ℕ, ◌+◌, ◌-◌, ◌≤◌, ◌<◌, Bool, true, false, List, [], ◌∷◌, ◌++◌, ◌≡◌, refl, sym, ◌∙◌, ap, ◌⊎◌, inl,
  inr, arith, append-nil, append_assoc, ltb, leb, if◌then◌else◌, Bool-cases, length, length-append,
  length-take, take, take_all, take-append_left,
}
use chur.Text.{Text, bytes}

-- limitedWriter; the limit is never negative where the program makes one.
pub record LimitedWriter : Type 0 where
  pub buf : Text
  pub limit : ℕ
  pub overflow : Bool

abbrev pub marker : Text
marker = bytes "...(truncated)"

-- The mark of an overflow, written once.
unfoldable pub mark : LimitedWriter → LimitedWriter
mark w = if w.overflow then w else record w { buf = w.buf ++ marker; overflow = true }

-- Write(p): the writer behind the call and the number of bytes reported as written.
unfoldable pub write : LimitedWriter → Text → LimitedWriter × ℕ
unfolding mark
write w p =
    let remaining = w.limit - length w.buf in
    if leb w.limit (length w.buf)
    then (mark w, length p)
    else if ltb remaining (length p)
    then (mark (record w { buf = w.buf ++ take remaining p }), length p)
    else (record w { buf = w.buf ++ p }, length p)

-- The writer after a sequence of calls.
unfoldable pub write_all : LimitedWriter → List Text → LimitedWriter
unfolding write
write_all w [] = w
write_all w (p ∷ ps) = write_all (write w p).0 ps

-- A new writer.
unfoldable pub new : ℕ → LimitedWriter
new limit = record { buf = []; limit = limit; overflow = false }

unfoldable pub concat : List Text → Text
concat [] = []
concat (p ∷ ps) = p ++ concat ps

-- What the buffer holds once `input` has been written: the whole input, if it fits and nothing has
-- been marked; else its first bytes up to the limit, and the mark.
unfoldable pub kept : ℕ → Text → Text
kept limit input = if ltb limit (length input) then take limit input ++ marker else input
