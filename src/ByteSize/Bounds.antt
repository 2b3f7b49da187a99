-- ===== src/ByteSize/Bounds.antt =====
-- A parsed size is a non-negative int64, and the multiplication by the unit never wraps.
use chur.Base.{
  ℕ, ◌*◌, ◌/◌, ◌≤◌, ◌<◌, ◌≡◌, refl, ◌⊎◌, inl, inr, arith, ltb, Bool-cases, Result, ok, err,
}
use chur.Base.Int.{ℤ, pos, negsuc, max_int64, wrap_int64-pos}
use chur.Text.{Text}
use chur.Text.Trim.{trim_space}
use chur.StrConv.{NumError, parse_int}
use chur.ByteSize.{SizeError, split_unit, scale, parse}

-- The multipliers.
abbrev pub IsUnit : ℕ → Type 0
IsUnit m = (m ≡ 1) ⊎ (m ≡ 1024) ⊎ (m ≡ 1048576) ⊎ (m ≡ 1073741824)

pub split_unit-IsUnit : (s : Text) → IsUnit (split_unit s).0
unfolding split_unit
split_unit-IsUnit s = ground arith

-- The product fits exactly if the code's test passes.
pub fits_iff :
    (m n : ℕ)
    → IsUnit m
    → (n ≤ max_int64 / m → n * m ≤ max_int64) × (n * m ≤ max_int64 → n ≤ max_int64 / m)
fits_iff m n u = ground arith

-- The multiplication with no wrap-around.
pub scale-fits : (m n : ℕ) → IsUnit m → n * m ≤ max_int64 → scale m (ok (pos n)) ≡ ok (pos (n * m))
unfolding scale
scale-fits m n u h =
    rw (wrap_int64-pos (n * m) (ground arith)) (ground (arith, (fits_iff m n u).1 h))

pub scale-overflow :
    (m n : ℕ)
    → IsUnit m
    → max_int64 < n * m
    → scale m (ok (pos n)) ≡ err (chur.ByteSize.size_overflow n)
unfolding scale
scale-overflow m n u h = elim (Bool-cases (ltb (max_int64 / m) n)) [
  | inl e ↦ rw e
  | inr e ↦ absurd (omega (arith, (fits_iff m n u).0 (ground arith)))
]

-- What a returned size is: the exact product of the number read and the unit.
abbrev pub IsSize : Text → ℤ → Type 0
IsSize s v =
    (n : ℕ) × (parse_int (split_unit s).1 ≡ ok (pos n))
    × (v ≡ pos (n * (split_unit s).0))
    × (n * (split_unit s).0 ≤ max_int64)

scale-exact :
    (m : ℕ) (r : Result NumError ℤ) {v : ℤ}
    → IsUnit m
    → scale m r ≡ ok v
    → (n : ℕ) × (r ≡ ok (pos n)) × (v ≡ pos (n * m)) × (n * m ≤ max_int64)
scale-exact m (err e) u h = absurd (unfold scale in cc)
scale-exact m (ok (negsuc n)) u h = absurd (unfold scale in cc)
scale-exact m (ok (pos n)) u h = elim (Bool-cases (ltb max_int64 (n * m))) [
  | inl over ↦ absurd (cc (scale-overflow m n u (ground arith)))
  | inr fits ↦ (n, refl, ground (arith, scale-fits m n u (ground arith)), ground arith)
]

-- If Parse returns a size, it is the number in front of the unit times the unit, computed with no
-- wrap-around, and it is not negative and at most 2^63 - 1.
pub parse-IsSize : (s : Text) {v : ℤ} → parse s ≡ ok v → IsSize (trim_space s) v
unfolding parse
parse-IsSize s h =
    scale-exact (split_unit (trim_space s)).0 (parse_int (split_unit (trim_space s)).1)
      (split_unit-IsUnit (trim_space s)) (ground arith)
