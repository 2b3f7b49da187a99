-- ===== src/ByteSize.antt =====
-- internal/bytesize/bytesize.go
pub mod Bounds
pub mod Meaning
use chur.Base.{
  ℕ, ◌-◌, ◌*◌, ◌/◌, Bool, true, false, ◌||◌, ltb, if◌then◌else◌, Result, ok, err, length, take,
}
use chur.Base.Int.{ℤ, pos, negsuc, max_int64, wrap_int64}
use chur.Text.{Text, bytes, is_empty}
use chur.Text.Trim.{trim_space, has_suffix}
use chur.StrConv.{NumError, parse_int}

pub data SizeError : Type 0 where
  empty_size : SizeError
  invalid_size : NumError → SizeError
  negative_size size_overflow : ℕ → SizeError

-- The suffix in either case of its first letter.
has_unit : Text → Text → Text → Bool
has_unit s upper lower = has_suffix s upper || has_suffix s lower

-- The multiplier, and the text of the number.
unfoldable pub split_unit : Text → ℕ × Text
unfolding has_unit
split_unit s =
    let number = take (length s - 2) s in
    if has_unit s (bytes "Gi") (bytes "gi")
    then (1073741824, number)
    else if has_unit s (bytes "Mi") (bytes "mi")
    then (1048576, number)
    else if has_unit s (bytes "Ki") (bytes "ki")
    then (1024, number)
    else (1, s)

-- The tests on the parsed number, and the product in int64.
unfoldable pub scale : ℕ → Result NumError ℤ → Result SizeError ℤ
scale multiplier (err e) = err (invalid_size e)
scale multiplier (ok (negsuc n)) = err (negative_size n)
scale multiplier (ok (pos n)) =
    if ltb (max_int64 / multiplier) n
    then err (size_overflow n)
    else ok (wrap_int64 (n * multiplier))

unfoldable pub parse : Text → Result SizeError ℤ
unfolding split_unit scale parse_int
parse s =
    let trimmed = trim_space s in
    let (multiplier, number) = split_unit trimmed in
    if is_empty trimmed then err empty_size else scale multiplier (parse_int number)
