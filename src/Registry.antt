-- ===== src/Registry.antt =====
-- The registry of provider factories (internal/provider/provider.go). A panic is a value, and a
-- factory is any type: nil is `none`. The lock makes each operation one step.
pub mod Entries
use chur.Base.{Bool, true, false, Option, none, some, List, [], ◌∷◌, if◌then◌else◌, Result, ok, err}
use chur.Text.{Text, is_empty, text_lt}
use chur.Dict.{Dict, lookup}

pub data Panic : Type 0 where
  empty_name nil_factory : Panic
  duplicate : Text → Panic

-- The names of the map, in any order.
abbrev pub entry_names {ℓ} : {F : Type ℓ} → Dict F → List Text
entry_names [] = []
entry_names ((k, f) ∷ m) = k ∷ entry_names m

-- sort.Strings
unfoldable pub insert_name : Text → List Text → List Text
insert_name n [] = n ∷ []
insert_name n (x ∷ xs) = if text_lt x n then x ∷ insert_name n xs else n ∷ x ∷ xs

unfoldable pub sort_names : List Text → List Text
unfolding insert_name
sort_names [] = []
sort_names (n ∷ ns) = insert_name n (sort_names ns)

module _ {ℓ} {F : Type ℓ} where
  -- The write, if the name is not taken.
  unfoldable pub put_new : Dict F → Text → F → Option F → Result Panic (Dict F)
  put_new registry name f none = ok ((name, f) ∷ registry)
  put_new registry name f (some g) = err (duplicate name)

  unfoldable pub put_factory : Dict F → Text → Option F → Result Panic (Dict F)
  unfolding put_new
  put_factory registry name none = err nil_factory
  put_factory registry name (some f) = put_new registry name f (lookup name registry)

  -- Register
  unfoldable pub register : Dict F → Text → Option F → Result Panic (Dict F)
  unfolding put_factory
  register registry name f = if is_empty name then err empty_name else put_factory registry name f

  -- Get
  unfoldable pub get_factory : Dict F → Text → Option F
  get_factory registry name = lookup name registry

  -- Names
  unfoldable pub registered_names : Dict F → List Text
  unfolding sort_names
  registered_names registry = sort_names (entry_names registry)
