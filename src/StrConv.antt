-- ===== src/StrConv.antt =====
-- strconv.ParseInt(s, 10, 64) and strconv.Atoi, whose values and errors are the same on 64 bits.
pub mod Value
use chur.Base.{
  ℕ, ◌+◌, ◌-◌, ◌*◌, ◌%◌, Bool, true, false, ◌&&◌, ◌||◌, not, [], ◌∷◌, ltb, leb, ◌==◌, within,
  if◌then◌else◌, Result, ok, err,
}
use chur.Base.Int.{ℤ, pos, neg, max_int64, two_pow_64}
use chur.Text.{Text}

-- strconv.ErrSyntax and strconv.ErrRange
pub data NumError : Type 0 where
  syntax out_of_range : NumError

-- math.MaxUint64 / 10 + 1
abbrev pub cutoff : ℕ
cutoff = 1844674407370955162

abbrev pub is_digit : ℕ → Bool
is_digit c = within b'0' b'9' c

-- The loop of ParseUint with base 10, on a uint64.
unfoldable pub parse_digits : ℕ → Text → Result NumError ℕ
parse_digits n [] = ok n
parse_digits n (c ∷ cs) =
    let scaled = n * 10 % two_pow_64 in
    let sum = (scaled + (c - b'0')) % two_pow_64 in
    let rest = parse_digits sum cs in
    if not (is_digit c)
    then err syntax
    else if leb cutoff n
    then err out_of_range
    else if ltb sum scaled
    then err out_of_range
    else rest

unfoldable pub parse_uint : Text → Result NumError ℕ
unfolding parse_digits
parse_uint [] = err syntax
parse_uint (c ∷ cs) = parse_digits 0 (c ∷ cs)

-- The bounds of int64, on the magnitude.
unfoldable pub signed : Bool → Result NumError ℕ → Result NumError ℤ
signed negative (err e) = err e
signed true (ok n) = if ltb (max_int64 + 1) n then err out_of_range else ok (neg n)
signed false (ok n) = if leb (max_int64 + 1) n then err out_of_range else ok (pos n)

unfoldable pub parse_int : Text → Result NumError ℤ
unfolding signed parse_uint
parse_int [] = err syntax
parse_int (c ∷ cs) =
    if c == b'+'
    then signed false (parse_uint cs)
    else if c == b'-'
    then signed true (parse_uint cs)
    else signed false (parse_uint (c ∷ cs))
