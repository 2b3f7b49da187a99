-- ===== src/Validate/Spec.antt =====
-- What the validators promise, stated about the bytes and without the code's loops.
use chur.Base.{
  ℕ, ◌≤◌, true, false, none, [], ◌∷◌, ◌≡◌, refl, ◌↔◌, ◌⊎◌, ◌≢◌, arith, All, All-map_weaken,
  Bool-cases, inl, inr,
}
use chur.Text.{Text, contains, contains_byte, is_empty}
use chur.Text.Laws.{Infix, contains_iff}
use chur.Text.Runes.{runes}
use chur.Validate.{
  dotdot, has_slash, first_invalid, is_allowed_rune, is_allowed_mount_rune, is_keeper_rune,
}
use chur.Validate.Chars.{IsAscii, first_invalid-none_iff}

-- An ASCII letter or digit.
abbrev pub IsAlnum : ℕ → Type 0
IsAlnum c = ((b'a' ≤ c) × (c ≤ b'z')) ⊎ ((b'A' ≤ c) × (c ≤ b'Z')) ⊎ ((b'0' ≤ c) × (c ≤ b'9'))

-- A character of a secret ref or key.
abbrev pub IsRefChar : ℕ → Type 0
IsRefChar c = IsAlnum c ⊎ (c ≡ b'-') ⊎ (c ≡ b'_') ⊎ (c ≡ b'.')

-- A character of a path: the slash too.
abbrev pub IsPathChar : ℕ → Type 0
IsPathChar c = IsRefChar c ⊎ (c ≡ b'/')

pub is_allowed_rune_iff : (c : ℕ) → (is_allowed_rune c ≡ true) ↔ IsRefChar c
unfolding is_allowed_rune
is_allowed_rune_iff c = ground arith

pub is_allowed_mount_rune_iff : (c : ℕ) → (is_allowed_mount_rune c ≡ true) ↔ IsPathChar c
unfolding is_allowed_mount_rune
is_allowed_mount_rune_iff c = ground arith

pub is_keeper_rune_iff : (c : ℕ) → (is_keeper_rune c ≡ true) ↔ IsPathChar c
unfolding is_keeper_rune
is_keeper_rune_iff c = ground arith

pub is_allowed_rune-IsAscii : IsAscii is_allowed_rune
unfolding is_allowed_rune
is_allowed_rune-IsAscii r h = ground arith

pub is_allowed_mount_rune-IsAscii : IsAscii is_allowed_mount_rune
is_allowed_mount_rune-IsAscii r h = ground (arith, is_allowed_mount_rune_iff r)

pub is_keeper_rune-IsAscii : IsAscii is_keeper_rune
is_keeper_rune-IsAscii r h = ground (arith, is_keeper_rune_iff r)

-- No `..` anywhere.
abbrev pub NoTraversal : Text → Type 0
NoTraversal s = ¬ Infix dotdot s

pub has_slash-false : (s : Text) → All IsRefChar s → has_slash s ≡ false
unfolding has_slash contains_byte
has_slash-false [] h = refl
has_slash-false (c ∷ s) h = ground (arith, has_slash-false s h.1)

pub NoTraversal-iff : (s : Text) → (contains s dotdot ≡ false) ↔ NoTraversal s
NoTraversal-iff s = (
  λ h i. cc ((contains_iff s dotdot).1 i),
  λ h. elim (Bool-cases (contains s dotdot)) [
    | inl e ↦ absurd (h ((contains_iff s dotdot).0 e))
    | inr e ↦ e
  ],
)

pub is_empty-false : (s : Text) → s ≢ [] → is_empty s ≡ false
is_empty-false [] h = absurd (h refl)
is_empty-false (c ∷ s) h = refl

pub allowed_chars : (s : Text) → (first_invalid is_allowed_rune (runes s) ≡ none) ↔ All IsRefChar s
allowed_chars s =
    let i = first_invalid-none_iff is_allowed_rune is_allowed_rune-IsAscii s in
    (
      λ h. All-map_weaken _ (λ c. (is_allowed_rune_iff c).0) s (i.0 h),
      λ h. i.1 (All-map_weaken _ (λ c. (is_allowed_rune_iff c).1) s h),
    )
