-- ===== src/FilePath.antt =====
-- The functions of Go's path/filepath that the program calls, on Unix.
use mathlib.Core.List.{reverse}
use chur.Base.{◌≡◌, refl, Bool, ◌||◌, List, [], ◌∷◌, ◌++◌, if◌then◌else◌}
use chur.Text.{Text, bytes, text_eq, has_prefix, contains_byte, before_last, is_empty, split, join}

-- `..` takes an element back, stays at a root, and is kept at the front of any other path.
unfoldable pub step_back : Bool → Text → List Text → List Text
step_back rooted part [] = if rooted then [] else part ∷ []
step_back rooted part (top ∷ below) = if text_eq top (bytes "..") then part ∷ top ∷ below else below

-- The elements kept so far, the last one first.
unfoldable pub clean_parts : Bool → List Text → List Text → List Text
clean_parts rooted kept [] = reverse kept
clean_parts rooted kept (part ∷ parts) =
    clean_parts rooted
      (if is_empty part || text_eq part (bytes ".")
        then kept
        else if text_eq part (bytes "..")
        then step_back rooted part kept
        else part ∷ kept)
      parts

-- filepath.Clean(path)
unfoldable pub clean : Text → Text
unfolding clean_parts step_back split join has_prefix text_eq
clean path =
    let rooted = has_prefix path (bytes "/") in
    let body = join b'/' (clean_parts rooted [] (split b'/' path)) in
    if rooted then b'/' ∷ body else if is_empty body then bytes "." else body

-- filepath.Join(a, b)
unfoldable pub join_path : Text → Text → Text
unfolding clean
join_path a b =
    if is_empty a
    then (if is_empty b then [] else clean b)
    else if is_empty b
    then clean a
    else clean (a ++ (b'/' ∷ b))

-- filepath.Dir(path)
unfoldable pub dir : Text → Text
unfolding clean before_last
dir path = if contains_byte path b'/' then clean (before_last path b'/' ++ b'/' ∷ []) else bytes "."

clean_tests :
    (clean (bytes "/a//b/./c/../d/") ≡ bytes "/a/b/d")
    × (clean (bytes "/./.") ≡ bytes "/")
    × (clean (bytes "a/../..") ≡ bytes "..")
    × (clean (bytes "") ≡ bytes ".")
    × (join_path (bytes "/secrets") (bytes "db/../x") ≡ bytes "/secrets/x")
    × (dir (bytes "/secrets/x") ≡ bytes "/secrets")
unfolding clean join_path dir
clean_tests = (refl, refl, refl, refl, refl, refl)
