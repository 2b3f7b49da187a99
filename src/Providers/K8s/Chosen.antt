-- ===== src/Providers/K8s/Chosen.antt =====
-- Which value of a Kubernetes secret is returned.
use chur.Base.{
  Option, none, some, [], ◌∷◌, Result, ok, ◌≡◌, ◌≢◌, ◌↔◌, refl, ap, map_err, bind-eq-ok,
  map_err-eq-ok, ok-injective,
}
use chur.Text.{Text}
use chur.Dict.{Dict, lookup}
use chur.Validate.{Reason, validate_secret_ref}
use chur.Validate.SecretRef.{IsSecretRef, validate_secret_ref_iff}
use chur.Providers.K8s.{
  K8sProvider, K8sError, bad_ref, not_found, valid_name, value_of, only_value, choose,
  get_k8s_secret,
}

-- The value of the selected key, or the only one where no key is selected.
pub data IsChosen (key : Text) (entries : Dict Text) (value : Text) : Type 0 where
  selected : key ≢ [] → lookup key entries ≡ some value → IsChosen key entries value
  only : key ≡ [] → (k : Text) → entries ≡ (k, value) ∷ [] → IsChosen key entries value

module _ {E : Type 0} where
  value_of-ok :
      (key : Text) (o : Option Text) {value : Text}
      → value_of {E = E} key o ≡ ok value
      → o ≡ some value
  unfolding value_of
  value_of-ok key none h = absurd (cc)
  value_of-ok key (some v) h = ap some (ok-injective h)

  only_value-ok :
      (entries : Dict Text) {value : Text}
      → only_value {E = E} entries ≡ ok value
      → (k : Text) × (entries ≡ (k, value) ∷ [])
  unfolding only_value
  only_value-ok [] h = absurd (cc)
  only_value-ok ((k, v) ∷ []) h = (k, ap (λ v. (k, v) ∷ []) (ok-injective h))
  only_value-ok (e ∷ f ∷ rest) h = absurd (cc)

  choose-IsChosen :
      (key : Text) (entries : Dict Text) {value : Text}
      → choose {E = E} key entries ≡ ok value
      → IsChosen key entries value
  unfolding choose
  choose-IsChosen key [] h = absurd (cc)
  choose-IsChosen [] (e ∷ rest) h = let (k, q) = only_value-ok (e ∷ rest) h in only refl k q
  choose-IsChosen (b ∷ bs) (e ∷ rest) h =
      selected (λ q. cc) (value_of-ok (b ∷ bs) (lookup (b ∷ bs) (e ∷ rest)) h)

  IsChosen-choose :
      (key : Text) (entries : Dict Text) {value : Text}
      → IsChosen key entries value
      → choose {E = E} key entries ≡ ok value
  unfolding choose only_value value_of lookup
  IsChosen-choose key entries (only e k q) = rw (e, q) refl
  IsChosen-choose [] entries (selected n q) = absurd (n refl)
  IsChosen-choose (b ∷ bs) [] (selected n q) = absurd (cc)
  IsChosen-choose (b ∷ bs) (e ∷ rest) (selected n q) = rw q refl

  valid_name-ok :
      (cause : Reason → K8sError E) (o : Option Reason) {u : Unit {0}}
      → valid_name cause o ≡ ok u
      → o ≡ none
  unfolding valid_name
  valid_name-ok cause none h = refl
  valid_name-ok cause (some r) h = cc

  -- The k8s provider returns a value exactly if the ref is a valid name, the cluster has the secret
  -- of that name in its namespace, and the value is the one under the selected key or, if no key is
  -- selected, the only one of the secret.
  pub get_k8s_secret_iff :
      (get_data : Text → Text → Result E (Dict Text)) (p : K8sProvider) (ref value : Text)
      → (get_k8s_secret get_data p ref ≡ ok value) ↔ (
          IsSecretRef ref
          × ((entries : Dict Text) × (get_data p.namespace ref ≡ ok entries)
              × IsChosen p.secret_key entries value))
  unfolding get_k8s_secret valid_name
  get_k8s_secret_iff get_data p ref value = (
    λ h.
        let (u, a, h1) = bind-eq-ok (valid_name bad_ref (validate_secret_ref ref)) _ h in
        let (entries, b, c) = bind-eq-ok (map_err not_found (get_data p.namespace ref)) _ h1 in
        (
          (validate_secret_ref_iff ref).0 (valid_name-ok bad_ref _ a),
          (entries, map_err-eq-ok not_found _ b, choose-IsChosen p.secret_key entries c),
        ),
    λ (v, (entries, b, c)).
        rw ((validate_secret_ref_iff ref).1 v, b) (IsChosen-choose p.secret_key entries c),
  )
