-- ===== src/Webhook/Namespaces.antt =====
-- The namespaces that the configuration allows, by membership.
use chur.Base.{true, false, List, [], ◌∷◌, ◌≡◌, refl, ◌≢◌, ◌↔◌, ◌⊎◌, inl, inr, arith, Bool-cases}
use chur.Text.{Text}
use chur.Text.Laws.{text_eq_iff}
use chur.Dict.{mem_key}
use chur.Webhook.Mutator.{namespace_allowed}

abbrev pub IsIn : Text → List Text → Type 0
IsIn x [] = ⊥
IsIn x (y ∷ ys) = (y ≡ x) ⊎ IsIn x ys

pub mem_key_iff : (x : Text) (ys : List Text) → (mem_key x ys ≡ true) ↔ IsIn x ys
unfolding mem_key
mem_key_iff x [] = ground arith
mem_key_iff x (y ∷ ys) = ground (arith, text_eq_iff y x, mem_key_iff x ys)

-- An empty list allows every namespace, any other its members.
pub namespace_allowed_iff :
    (allowed : List Text) (ns : Text)
    → (namespace_allowed allowed ns ≡ true) ↔ ((allowed ≡ []) ⊎ IsIn ns allowed)
unfolding namespace_allowed
namespace_allowed_iff [] ns = (λ h. inl refl, λ h. refl)
namespace_allowed_iff (a ∷ as') ns = (
  λ h. inr ((mem_key_iff ns (a ∷ as')).0 h),
  elim [ inl e ↦ absurd (cc) | inr i ↦ (mem_key_iff ns (a ∷ as')).1 i ],
)

pub namespace_denied_iff :
    (allowed : List Text) (ns : Text)
    → (namespace_allowed allowed ns ≡ false) ↔ ((allowed ≢ []) × (¬ IsIn ns allowed))
namespace_denied_iff allowed ns =
    let i = namespace_allowed_iff allowed ns in
    (
      λ h. ((λ e. cc (i.1 (inl e))), (λ m. cc (i.1 (inr m)))),
      λ h. elim (Bool-cases (namespace_allowed allowed ns)) [
        | inl t ↦ absurd (elim (i.0 t) [ inl e ↦ h.0 e | inr m ↦ h.1 m ])
        | inr f ↦ f
      ],
    )
