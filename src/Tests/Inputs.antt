-- ===== src/Tests/Inputs.antt =====
-- The validators, the parsers and the readers at concrete inputs.
use chur.Base.{
  ℕ, ◌*◌, ◌≤◌, ◌<◌, Bool, true, false, Option, none, some, List, [], ◌∷◌, ◌++◌, ◌≡◌, refl, ◌≢◌, ◌↔◌,
  ◌⊎◌, inl, inr, arith, All, Result, ok, err,
}
use chur.Base.Int.{ℤ, pos, max_int64}
use chur.Text.{Text, bytes}
use chur.Text.Trim.{trim_space}
use chur.StrConv.Value.{IsDigits}
use chur.Validate.{validate_secret_ref, validate_keeper_ref}
use chur.Validate.SecretRef.{IsSecretRef, validate_secret_ref_iff}
use chur.Validate.Paths.{IsPath, IsAbsolute, validate_keeper_ref_iff}
use chur.ByteSize.{SizeError, parse}
use chur.ByteSize.Meaning.{mebi, suffix, factor, parse-value}
use chur.LogSafe.Clean.{IsPrintable, IsPlain, value-IsPrintable}
use chur.ReadUtil.{cancelled, Race, ctx_done, read_done, Reader, read_with_context}
use chur.ReadUtil.Bounded.{bounded, read_with_context-bounded, read_with_context-wraps}
use chur.LogSafe
use chur.StrConv.Value

validate_secret_ref_iff_example :
    (validate_secret_ref (bytes "db-pass.txt") ≡ none) ↔ IsSecretRef (bytes "db-pass.txt")
validate_secret_ref_iff_example = validate_secret_ref_iff (bytes "db-pass.txt")

validate_keeper_ref_iff_example : (validate_keeper_ref (bytes "prod/db/pass") ≡ none) ↔ (
    (bytes "prod/db/pass" ≢ [])
    × (¬ IsAbsolute (bytes "prod/db/pass"))
    × IsPath (bytes "prod/db/pass"))
validate_keeper_ref_iff_example = validate_keeper_ref_iff (bytes "prod/db/pass")

twelve-IsDigits : IsDigits (bytes "12")
twelve-IsDigits = ground arith

twelve-ne : bytes "12" ≢ []
twelve-ne h = cc

parse-value_example :
    (Value.value (bytes "12") * factor mebi ≤ max_int64
      → parse (bytes "12" ++ suffix mebi) ≡ ok (pos (Value.value (bytes "12") * factor mebi)))
    × (max_int64 < Value.value (bytes "12") * factor mebi
        → (e : SizeError) × (parse (bytes "12" ++ suffix mebi) ≡ err e))
parse-value_example = parse-value (bytes "12") mebi twelve-ne twelve-IsDigits

ten_parsed : parse (bytes " 10Ki\n") ≡ ok (pos 10240)
unfolding parse trim_space chur.Text.Trim.has_suffix chur.Base.Int.wrap_int64
ten_parsed = refl

value-IsPrintable_example : All IsPrintable (LogSafe.value (bytes "a\nb"))
value-IsPrintable_example = value-IsPrintable (bytes "a\nb")

IsPlain-ref : All IsPlain (bytes "prod/db")
IsPlain-ref = ground arith

-- A file of five bytes, and an error code for the reader.
abbrev file : Reader ℕ
file = record { stream = record { content = bytes "hello"; failure = none }; closed = false }

read_with_context-bounded_example :
    ((read_with_context read_done (pos 4) file).0 ≡ bounded 4 file.stream)
    × ((e : ℕ) → (read_with_context (ctx_done e) (pos 4) file).0 ≡ err (cancelled e))
    × ((race : Race ℕ) → (read_with_context race (pos 4) file).1.closed ≡ true)
read_with_context-bounded_example = read_with_context-bounded 4 file (omega arith)

read_with_context-wraps_example : (read_with_context read_done (pos max_int64) file).0 ≡ ok []
read_with_context-wraps_example = read_with_context-wraps file
