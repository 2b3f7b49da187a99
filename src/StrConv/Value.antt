-- ===== src/StrConv/Value.antt =====
-- What a decimal numeral means, and that ParseInt returns it when it fits an int64.
use chur.Base.{
  ℕ, ◌+◌, ◌-◌, ◌*◌, ◌%◌, ◌≤◌, ◌<◌, false, [], ◌∷◌, ◌≡◌, refl, ◌≢◌, inl, inr, arith, ltb, ok, err,
  All, Bool-cases,
}
use chur.Base.Int.{pos, max_int64, two_pow_64}
use chur.Text.{Text}
use chur.StrConv.{out_of_range, parse_digits, parse_uint, signed, parse_int}

abbrev pub IsDigits : Text → Type 0
IsDigits = All (λ c. (b'0' ≤ c) × (c ≤ b'9'))

-- The number that the digits write, behind a number already read.
unfoldable pub value_from : ℕ → Text → ℕ
value_from n [] = n
value_from n (c ∷ cs) = value_from (n * 10 + (c - b'0')) cs

abbrev pub value : Text → ℕ
value = value_from 0

le-value_from : (n : ℕ) (cs : Text) → n ≤ value_from n cs
unfolding value_from
le-value_from n [] = omega arith
le-value_from n (c ∷ cs) = omega (arith, le-value_from (n * 10 + (c - b'0')) cs)

parse_digits-fits :
    (n : ℕ) (cs : Text)
    → IsDigits cs
    → value_from n cs < two_pow_64
    → parse_digits n cs ≡ ok (value_from n cs)
unfolding parse_digits value_from
parse_digits-fits n [] d h = refl
parse_digits-fits n (c ∷ cs) d h =
    let low = le-value_from (n * 10 + (c - b'0')) cs in
    let sum : (n * 10 % two_pow_64 + (c - b'0')) % two_pow_64 ≡ n * 10 + (c - b'0') = omega arith in
    rw sum (ground (arith, parse_digits-fits (n * 10 + (c - b'0')) cs d.1 h))

parse_digits-range :
    (n : ℕ) (cs : Text)
    → IsDigits cs
    → n < two_pow_64
    → two_pow_64 ≤ value_from n cs
    → parse_digits n cs ≡ err out_of_range
unfolding parse_digits value_from
parse_digits-range n [] d low h = absurd (omega arith)
parse_digits-range n (c ∷ cs) d low h = elim (Bool-cases (ltb (n * 10 + (c - b'0')) two_pow_64)) [
  | inl fits ↦
      let sum : (n * 10 % two_pow_64 + (c - b'0')) % two_pow_64 ≡ n * 10 + (c - b'0') =
        ground arith in
      rw sum (ground (arith, parse_digits-range (n * 10 + (c - b'0')) cs d.1 (ground arith) h))
  | inr wraps ↦ ground arith
]

parse_uint-fits :
    (cs : Text) → cs ≢ [] → IsDigits cs → value cs < two_pow_64 → parse_uint cs ≡ ok (value cs)
unfolding parse_uint
parse_uint-fits [] ne d h = absurd (ne refl)
parse_uint-fits (c ∷ cs) ne d h = parse_digits-fits 0 (c ∷ cs) d h

parse_uint-range :
    (cs : Text) → cs ≢ [] → IsDigits cs → two_pow_64 ≤ value cs → parse_uint cs ≡ err out_of_range
unfolding parse_uint
parse_uint-range [] ne d h = absurd (ne refl)
parse_uint-range (c ∷ cs) ne d h = parse_digits-range 0 (c ∷ cs) d (omega arith) h

unsigned : (cs : Text) → IsDigits cs → parse_int cs ≡ signed false (parse_uint cs)
unfolding parse_int
unsigned [] d = refl
unsigned (c ∷ cs) d = ground arith

-- ParseInt of digits returns their value if that is at most 2^63 - 1, and a range error if not.
pub parse_int-digits :
    (cs : Text)
    → cs ≢ []
    → IsDigits cs
    → (value cs ≤ max_int64 → parse_int cs ≡ ok (pos (value cs)))
      × (max_int64 < value cs → parse_int cs ≡ err out_of_range)
unfolding signed
parse_int-digits cs ne d = (
  λ h. rw (unsigned cs d, parse_uint-fits cs ne d (omega arith)) (ground arith),
  λ h. elim (Bool-cases (ltb (value cs) two_pow_64)) [
    | inl fits ↦ rw (unsigned cs d, parse_uint-fits cs ne d (ground arith)) (ground arith)
    | inr over ↦ rw (unsigned cs d, parse_uint-range cs ne d (ground arith))
  ],
)
