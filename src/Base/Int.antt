-- ===== src/Base/Int.antt =====
-- Go's int64: the integers over the native numbers, and the wrap-around at 64 bits.
use Prim.Native.Nat.{ℕ, zero, suc, ◌+◌, ◌-◌, ◌%◌, ◌<◌}
use mathlib.Core.Path.{◌≡◌}
use mathlib.Core.Bool.{Bool, true, false}
use native.Mathlib.Omega.{arith}
use chur.Base.Tests.{ltb, leb, if◌then◌else◌}

-- `negsuc n` is -(n + 1).
pub data ℤ : Type 0 where
  pos : ℕ → ℤ
  negsuc : ℕ → ℤ

-- -n
abbrev pub neg : ℕ → ℤ
neg zero = pos 0
neg (suc n) = negsuc n

-- 2^63 - 1
abbrev pub max_int64 : ℕ
max_int64 = 9223372036854775807

abbrev pub two_pow_64 : ℕ
two_pow_64 = 18446744073709551616

-- The int64 with the low 64 bits of `n`.
unfoldable pub wrap_int64 : ℕ → ℤ
wrap_int64 n =
    let low = n % two_pow_64 in if leb low max_int64 then pos low else negsuc (two_pow_64 - 1 - low)

-- a < b
abbrev pub ltb_ℤ : ℤ → ℤ → Bool
ltb_ℤ (pos a) (pos b) = ltb a b
ltb_ℤ (pos a) (negsuc b) = false
ltb_ℤ (negsuc a) (pos b) = true
ltb_ℤ (negsuc a) (negsuc b) = ltb b a

-- a + 1, as int64 arithmetic computes it
unfoldable pub succ_int64 : ℤ → ℤ
unfolding wrap_int64
succ_int64 (pos n) = wrap_int64 (n + 1)
succ_int64 (negsuc n) = neg n

pub wrap_int64-pos : (n : ℕ) → n < 9223372036854775808 → wrap_int64 n ≡ pos n
unfolding wrap_int64
wrap_int64-pos n h = ground arith
