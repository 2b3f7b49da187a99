-- ===== src/ByteSize/Meaning.antt =====
-- Parse on the sizes that the documentation describes: digits, and a unit or none.
use chur.Base.{
  ℕ, ◌-◌, ◌*◌, ◌≤◌, ◌<◌, false, [], ◌∷◌, ◌++◌, ◌≡◌, refl, sym, ◌∙◌, subst, ◌≢◌, inl, inr, arith,
  leb, leb→le, Bool-cases, Option-cases, length, take, drop, length-append, take-append_left,
  drop-append_left, All-drop, All-append_right, ok, err, append-nil, append_assoc,
}
use chur.Base.Int.{pos, max_int64}
use chur.Text.{Text, bytes, text_eq, last_byte}
use chur.Text.Laws.{text_eq_iff, last_byte-split, last_byte-cons}
use chur.Text.Trim.{trim_space, has_suffix}
use chur.Text.Trimmed.{trim_space-marks, IsMark}
use chur.StrConv.{parse_int, out_of_range}
use chur.StrConv.Value.{IsDigits, value, parse_int-digits}
use chur.ByteSize.{SizeError, invalid_size, size_overflow, split_unit, scale, parse}
use chur.ByteSize.Bounds.{IsUnit, scale-fits, scale-overflow}

pub data SizeUnit : Type 0 where
  plain : SizeUnit
  kibi mebi gibi : SizeUnit
  kibi_lower mebi_lower gibi_lower : SizeUnit

pub suffix : SizeUnit → Text
suffix plain = []
suffix kibi = bytes "Ki"
suffix mebi = bytes "Mi"
suffix gibi = bytes "Gi"
suffix kibi_lower = bytes "ki"
suffix mebi_lower = bytes "mi"
suffix gibi_lower = bytes "gi"

pub factor : SizeUnit → ℕ
factor plain = 1
factor kibi = 1024
factor mebi = 1048576
factor gibi = 1073741824
factor kibi_lower = 1024
factor mebi_lower = 1048576
factor gibi_lower = 1073741824

-- No letter ends a text of digits.
digits_suffix : (ds : Text) (x : ℕ) → IsDigits ds → has_suffix ds (x ∷ b'i' ∷ []) ≡ false
unfolding has_suffix
digits_suffix ds x d = elim (Bool-cases (text_eq (drop (length ds - 2) ds) (x ∷ b'i' ∷ []))) [
  | inl e ↦
      let tail = (text_eq_iff (drop (length ds - 2) ds) (x ∷ b'i' ∷ [])).0 e in
      absurd (omega (arith, (rw tail at (All-drop _ (length ds - 2) ds d)).1.0.1))
  | inr e ↦ rw e (ground arith)
]

split_plain : (ds : Text) → IsDigits ds → split_unit ds ≡ (1, ds)
unfolding split_unit
split_plain ds d = rw (
  digits_suffix ds b'G' d,
  digits_suffix ds b'g' d,
  digits_suffix ds b'M' d,
  digits_suffix ds b'm' d,
  digits_suffix ds b'K' d,
  digits_suffix ds b'k' d,
)

-- A suffix of two bytes is found by comparing two bytes, and the number is what stands before it.
has_suffix-pair :
    (ds : Text) (x y z w : ℕ)
    → has_suffix (ds ++ (x ∷ y ∷ [])) (z ∷ w ∷ []) ≡ text_eq (x ∷ y ∷ []) (z ∷ w ∷ [])
unfolding has_suffix
has_suffix-pair ds x y z w =
    let n : length (ds ++ (x ∷ y ∷ [])) - 2 ≡ length ds =
      omega (arith, length-append ds (x ∷ y ∷ [])) in
    rw (n, drop-append_left ds (x ∷ y ∷ [])) (ground (arith, length-append ds (x ∷ y ∷ [])))

number-pair :
    (ds : Text) (x y : ℕ) → take (length (ds ++ (x ∷ y ∷ [])) - 2) (ds ++ (x ∷ y ∷ [])) ≡ ds
number-pair ds x y =
    let n : length (ds ++ (x ∷ y ∷ [])) - 2 ≡ length ds =
      omega (arith, length-append ds (x ∷ y ∷ [])) in
    rw n (take-append_left ds (x ∷ y ∷ []))

split_suffix :
    (ds : Text) (u : SizeUnit) → IsDigits ds → split_unit (ds ++ suffix u) ≡ (factor u, ds)
unfolding suffix factor split_unit text_eq
split_suffix ds plain d = rw append-nil (split_plain ds d)
split_suffix ds kibi d = simp (has_suffix-pair, number-pair)
split_suffix ds mebi d = simp (has_suffix-pair, number-pair)
split_suffix ds gibi d = simp (has_suffix-pair, number-pair)
split_suffix ds kibi_lower d = simp (has_suffix-pair, number-pair)
split_suffix ds mebi_lower d = simp (has_suffix-pair, number-pair)
split_suffix ds gibi_lower d = simp (has_suffix-pair, number-pair)

-- The last byte of a unit stands behind everything else.
unit_end : (s : Text) (x : ℕ) → s ++ (x ∷ b'i' ∷ []) ≡ (s ++ (x ∷ [])) ++ (b'i' ∷ [])
unit_end s x = sym (append_assoc s (x ∷ []) (b'i' ∷ []))

-- The text ends in a digit or in the letter of its unit.
ending :
    (c : ℕ) (ds : Text) (u : SizeUnit)
    → IsDigits (c ∷ ds)
    → (d : ℕ) × (front : Text) × ((c ∷ ds) ++ suffix u ≡ front ++ (d ∷ [])) × IsMark d
unfolding suffix
ending c ds kibi h = (b'i', (c ∷ ds) ++ (b'K' ∷ []), unit_end (c ∷ ds) b'K', omega arith)
ending c ds mebi h = (b'i', (c ∷ ds) ++ (b'M' ∷ []), unit_end (c ∷ ds) b'M', omega arith)
ending c ds gibi h = (b'i', (c ∷ ds) ++ (b'G' ∷ []), unit_end (c ∷ ds) b'G', omega arith)
ending c ds kibi_lower h = (b'i', (c ∷ ds) ++ (b'k' ∷ []), unit_end (c ∷ ds) b'k', omega arith)
ending c ds mebi_lower h = (b'i', (c ∷ ds) ++ (b'm' ∷ []), unit_end (c ∷ ds) b'm', omega arith)
ending c ds gibi_lower h = (b'i', (c ∷ ds) ++ (b'g' ∷ []), unit_end (c ∷ ds) b'g', omega arith)
ending c ds plain h = elim (Option-cases (last_byte (c ∷ ds))) [
  | inl e ↦ absurd (last_byte-cons c ds e)
  | inr (d, e) ↦
      let (front, q) = last_byte-split (c ∷ ds) d e in
      (
        d,
        front,
        append-nil (c ∷ ds) ∙ q,
        omega (arith, (All-append_right _ front (d ∷ []) (subst IsDigits q h)).0),
      )
]

trimmed :
    (c : ℕ) (ds : Text) (u : SizeUnit)
    → IsDigits (c ∷ ds)
    → trim_space ((c ∷ ds) ++ suffix u) ≡ (c ∷ ds) ++ suffix u
trimmed c ds u h =
    let (d, front, q, mark) = ending c ds u h in
    trim_space-marks c (ds ++ suffix u) front d (omega (arith, h.0)) mark q

factor-IsUnit : (u : SizeUnit) → IsUnit (factor u)
unfolding factor
factor-IsUnit u = ground arith

parse_number :
    (c : ℕ) (ds : Text) (u : SizeUnit)
    → IsDigits (c ∷ ds)
    → parse ((c ∷ ds) ++ suffix u) ≡ scale (factor u) (parse_int (c ∷ ds))
unfolding parse
parse_number c ds u h = rw (trimmed c ds u h, split_suffix (c ∷ ds) u h)

-- A unit is at least 1.
number_fits : (n : ℕ) (u : SizeUnit) → n * factor u ≤ max_int64 → n ≤ max_int64
unfolding factor
number_fits n u h = ground arith

parse-cons :
    (c : ℕ) (ds : Text) (u : SizeUnit)
    → IsDigits (c ∷ ds)
    → (value (c ∷ ds) * factor u ≤ max_int64
        → parse ((c ∷ ds) ++ suffix u) ≡ ok (pos (value (c ∷ ds) * factor u)))
      × (max_int64 < value (c ∷ ds) * factor u
          → (e : SizeError) × (parse ((c ∷ ds) ++ suffix u) ≡ err e))
parse-cons c ds u h =
    let n = value (c ∷ ds) in
    let (fits, range) = parse_int-digits (c ∷ ds) (λ e. cc) h in
    (
      λ p.
          rw (parse_number c ds u h, fits (number_fits n u p))
            (scale-fits (factor u) n (factor-IsUnit u) p),
      λ p. elim (Bool-cases (leb n max_int64)) [
        | inl small ↦ (
          size_overflow n,
          rw (parse_number c ds u h, fits (leb→le n max_int64 small))
              (scale-overflow (factor u) n (factor-IsUnit u) p),
        )
        | inr big ↦ (
          invalid_size out_of_range,
          rw (parse_number c ds u h, range (ground arith)) (unfold scale in refl),
        )
      ],
    )

-- Digits with a unit or none are read as the number times the unit if that is at most 2^63 - 1, and
-- are refused with an error if it is more: no input is silently wrapped.
pub parse-value :
    (ds : Text) (u : SizeUnit)
    → ds ≢ []
    → IsDigits ds
    → (value ds * factor u ≤ max_int64 → parse (ds ++ suffix u) ≡ ok (pos (value ds * factor u)))
      × (max_int64 < value ds * factor u → (e : SizeError) × (parse (ds ++ suffix u) ≡ err e))
parse-value [] u ne h = absurd (ne refl)
parse-value (c ∷ ds) u ne h = parse-cons c ds u h
