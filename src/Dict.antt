-- ===== src/Dict.antt =====
-- Go's map[string]V, as the entries in some order. A missing key gives `none`; where the source
-- reads the zero value of a string, `get` gives the empty one.
use chur.Base.{Bool, false, ◌||◌, Option, none, some, List, [], ◌∷◌, if◌then◌else◌}
use chur.Text.{Text, text_eq}

abbrev pub Dict {ℓ} : Type ℓ → Type ℓ
Dict V = List (Text × V)

-- v, ok := m[key]
unfoldable pub lookup {ℓ} : {V : Type ℓ} → Text → Dict V → Option V
lookup key [] = none
lookup key ((k, v) ∷ m) = if text_eq k key then some v else lookup key m

abbrev pub or_zero : Option Text → Text
or_zero none = []
or_zero (some v) = v

-- m[key], on a map of strings
unfoldable pub get : Text → Dict Text → Text
get key m = or_zero (lookup key m)

-- m[key], on a map of true's
unfoldable pub mem_key : Text → List Text → Bool
unfolding text_eq
mem_key key [] = false
mem_key key (k ∷ ks) = text_eq k key || mem_key key ks
