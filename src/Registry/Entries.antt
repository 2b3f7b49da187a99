-- ===== src/Registry/Entries.antt =====
-- What a registration does to the registry.
use chur.Base.{
  Option, none, some, [], ◌∷◌, ◌≡◌, ◌≢◌, refl, sym, inl, inr, Bool-cases, ok, ok-injective,
}
use chur.Text.{Text, text_eq}
use chur.Text.Laws.{text_eq_iff, text_eq_refl}
use chur.Dict.{Dict, lookup}
use chur.Registry.{put_new, put_factory, register, get_factory}

module _ {ℓ} {F : Type ℓ} where
  lookup-cons_other :
      (k other : Text) (f : F) (m : Dict F) → other ≢ k → lookup other ((k, f) ∷ m) ≡ lookup other m
  unfolding lookup
  lookup-cons_other k other f m ne = elim (Bool-cases (text_eq k other)) [
    | inl t ↦ absurd (ne (sym ((text_eq_iff k other).0 t)))
    | inr t ↦ rw t refl
  ]

  put_new-get :
      (registry : Dict F) (name : Text) (f : F) (o : Option F) {after : Dict F}
      → put_new registry name f o ≡ ok after
      → (o ≡ none) × (after ≡ ((name, f) ∷ registry))
  unfolding put_new
  put_new-get registry name f none h = (refl, sym (ok-injective h))
  put_new-get registry name f (some g) h = cc

  -- A registration that does not panic was of a new name that is not empty, and afterwards that
  -- name gives the factory, and every other name what it gave before.
  pub register-get_factory :
      (registry : Dict F) (name : Text) (f : F) {after : Dict F}
      → register registry name (some f) ≡ ok after
      → (name ≢ [])
        × (get_factory registry name ≡ none)
        × (get_factory after name ≡ some f)
        × ((other : Text) → other ≢ name → get_factory after other ≡ get_factory registry other)
  unfolding register put_factory get_factory
  register-get_factory registry [] f h = absurd (cc)
  register-get_factory registry (c ∷ cs) f h =
      let (n, e) = put_new-get registry (c ∷ cs) f (lookup (c ∷ cs) registry) h in
      (
        (λ q. cc),
        n,
        rw e (unfold lookup in rw (text_eq_refl (c ∷ cs)) refl),
        λ other ne. rw e (lookup-cons_other (c ∷ cs) other f registry ne),
      )
