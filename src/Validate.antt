-- ===== src/Validate.antt =====
-- The package of validators (internal/validate/validate.go). A Go `error` is an `Option Reason`:
-- `none` is nil, and a `Reason` is what the message says, with the rune and the position that it
-- names; the wording is not modelled.
pub mod Chars
pub mod Spec
pub mod SecretRef
pub mod Paths
use chur.Base.{
  ℕ, ◌<◌, Bool, true, false, ◌&&◌, ◌||◌, not, Option, none, some, List, [], ◌∷◌, ltb, ◌==◌, within,
  length, if◌then◌else◌,
}
use chur.Text.{
  Text, bytes, text_eq, has_prefix, contains, contains_byte, first_byte, last_byte, is_empty,
}
use chur.Text.Runes.{runes}
use chur.FilePath.{clean}

pub data Reason : Type 0 where
  empty too_long is_dot has_traversal has_separator : Reason
  invalid_char : ℕ → ℕ → Reason
  bad_first bad_last not_absolute is_absolute is_root : Reason

-- isAllowedRune
unfoldable pub is_allowed_rune : ℕ → Bool
is_allowed_rune r =
    within b'a' b'z' r
    || within b'A' b'Z' r
    || within b'0' b'9' r
    || r == b'-'
    || r == b'_'
    || r == b'.'

-- isAllowedMountRune
unfoldable pub is_allowed_mount_rune : ℕ → Bool
is_allowed_mount_rune r =
    within b'a' b'z' r
    || within b'A' b'Z' r
    || within b'0' b'9' r
    || r == b'/'
    || r == b'-'
    || r == b'_'
    || r == b'.'

-- The constant `allowed` of ValidateKeeperRef.
keeper_chars : Text
keeper_chars = bytes "abcdefghijklmnopqrstuvwxyzABCDEFGHIJKLMNOPQRSTUVWXYZ0123456789._/-"

-- strings.ContainsRune(allowed, r)
unfoldable pub is_keeper_rune : ℕ → Bool
unfolding keeper_chars contains_byte
is_keeper_rune r = contains_byte keeper_chars r

-- `for i, r := range s { if !allowed(r) { return ... } }`
unfoldable pub first_invalid : (ℕ → Bool) → List (ℕ × ℕ) → Option Reason
first_invalid allowed [] = none
first_invalid allowed ((i, r) ∷ rest) =
    let later = first_invalid allowed rest in if allowed r then later else some (invalid_char r i)

unfoldable pub is_dash_or_dot : Option ℕ → Bool
is_dash_or_dot none = false
is_dash_or_dot (some c) = c == b'-' || c == b'.'

unfoldable pub has_slash : Text → Bool
has_slash s = contains_byte s b'/' || contains_byte s b'\\'

abbrev pub dotdot : Text
dotdot = bytes ".."

-- The byte at the front is read where the text is not empty, as are those of the other validators.
unfoldable pub validate_secret_ref : Text → Option Reason
unfolding is_dash_or_dot
validate_secret_ref ref =
    if is_empty ref
    then some empty
    else if ltb 255 (length ref)
    then some too_long
    else if text_eq ref (bytes ".")
    then some is_dot
    else if contains ref dotdot
    then some has_traversal
    else if has_slash ref
    then some has_separator
    else (let invalid = first_invalid is_allowed_rune (runes ref) in
        elim invalid [
          | some e ↦ some e
          | none ↦
              if is_dash_or_dot (first_byte ref)
              then some bad_first
              else if is_dash_or_dot (last_byte ref)
              then some bad_last
              else none
        ])

-- The empty key is accepted: the key is optional.
unfoldable pub validate_secret_key : Text → Option Reason
validate_secret_key key =
    if is_empty key
    then none
    else if ltb 253 (length key)
    then some too_long
    else if contains key dotdot
    then some has_traversal
    else if has_slash key
    then some has_separator
    else first_invalid is_allowed_rune (runes key)

unfoldable pub validate_mount_path : Text → Option Reason
validate_mount_path path =
    if is_empty path
    then none
    else if ltb 4096 (length path)
    then some too_long
    else if not (has_prefix path (bytes "/"))
    then some not_absolute
    else if contains path dotdot
    then some has_traversal
    else first_invalid is_allowed_mount_rune (runes path)

unfoldable pub validate_local_base_path : Text → Option Reason
validate_local_base_path path =
    if is_empty path
    then some empty
    else if ltb 4096 (length path)
    then some too_long
    else if not (has_prefix path (bytes "/"))
    then some not_absolute
    else if text_eq (clean path) (bytes "/") || text_eq (clean path) (bytes ".")
    then some is_root
    else if contains path dotdot
    then some has_traversal
    else first_invalid is_allowed_mount_rune (runes path)

unfoldable pub validate_keeper_ref : Text → Option Reason
validate_keeper_ref ref =
    if is_empty ref
    then some empty
    else if ltb 4096 (length ref)
    then some too_long
    else if has_prefix ref (bytes "/")
    then some is_absolute
    else if contains ref dotdot
    then some has_traversal
    else first_invalid is_keeper_rune (runes ref)
