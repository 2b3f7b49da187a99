-- ===== src/Validate/Paths.antt =====
-- ValidateSecretKey, ValidateMountPath, ValidateLocalBasePath and ValidateKeeperRef accept exactly
-- what the specification allows.
use chur.Base.{
  ◌≤◌, true, none, [], ◌∷◌, ◌≡◌, refl, ◌↔◌, ◌⊎◌, inl, inr, ◌≢◌, arith, All, All-map_weaken, length,
  Bool-cases,
}
use chur.Text.{Text, bytes, has_prefix}
use chur.Text.Runes.{runes}
use chur.Validate.{
  validate_secret_key, validate_mount_path, validate_keeper_ref, first_invalid,
  is_allowed_mount_rune, is_keeper_rune,
}
use chur.Validate.Chars.{first_invalid-none_iff}
use chur.Validate.Spec.{
  IsRefChar, IsPathChar, is_allowed_mount_rune_iff, is_keeper_rune_iff,
  is_allowed_mount_rune-IsAscii, is_keeper_rune-IsAscii, NoTraversal, NoTraversal-iff,
  allowed_chars, has_slash-false,
}

mount_chars : (s : Text) → (first_invalid is_allowed_mount_rune (runes s) ≡ none) ↔ All IsPathChar s
mount_chars s =
    let i = first_invalid-none_iff is_allowed_mount_rune is_allowed_mount_rune-IsAscii s in
    (
      λ h. All-map_weaken _ (λ c. (is_allowed_mount_rune_iff c).0) s (i.0 h),
      λ h. i.1 (All-map_weaken _ (λ c. (is_allowed_mount_rune_iff c).1) s h),
    )

keeper_ref_chars : (s : Text) → (first_invalid is_keeper_rune (runes s) ≡ none) ↔ All IsPathChar s
keeper_ref_chars s =
    let i = first_invalid-none_iff is_keeper_rune is_keeper_rune-IsAscii s in
    (
      λ h. All-map_weaken _ (λ c. (is_keeper_rune_iff c).0) s (i.0 h),
      λ h. i.1 (All-map_weaken _ (λ c. (is_keeper_rune_iff c).1) s h),
    )

-- A path of at most 4096 of the allowed characters with no `..`.
pub record IsPath (s : Text) : Type 0 where
  pub short : length s ≤ 4096
  pub chars : All IsPathChar s
  pub no_traversal : NoTraversal s

pub record IsSecretKey (s : Text) : Type 0 where
  pub short : length s ≤ 253
  pub chars : All IsRefChar s
  pub no_traversal : NoTraversal s

-- The first byte is a slash.
abbrev pub IsAbsolute : Text → Type 0
IsAbsolute s = (rest : Text) × (s ≡ b'/' ∷ rest)

slash_iff : (s : Text) → (has_prefix s (bytes "/") ≡ true) ↔ IsAbsolute s
unfolding has_prefix
slash_iff [] = (λ h. cc, λ (r, e). cc)
slash_iff (c ∷ s) = (λ h. (s, ground arith), λ (r, e). ground arith)

-- A Secret key is accepted exactly if it is empty (no key is chosen), or has at most 253 bytes, all
-- of them letters, digits, dash, underscore and dot, with no `..`.
pub validate_secret_key_iff :
    (s : Text) → (validate_secret_key s ≡ none) ↔ ((s ≡ []) ⊎ IsSecretKey s)
unfolding validate_secret_key
validate_secret_key_iff [] = (λ h. inl refl, λ h. refl)
validate_secret_key_iff (c ∷ s) = (
  λ h. inr (record {
    short = ground arith;
    chars = (allowed_chars (c ∷ s)).0 (ground arith);
    no_traversal = (NoTraversal-iff (c ∷ s)).0 (ground arith);
  }),
  λ h. elim h [
    | inl e ↦ absurd (cc)
    | inr k ↦ ground (
      arith,
      (allowed_chars (c ∷ s)).1 k.chars,
      (NoTraversal-iff (c ∷ s)).1 k.no_traversal,
      has_slash-false (c ∷ s) k.chars,
    )
  ],
)

-- A mount path is accepted exactly if it is empty (the caller then takes /secrets), or is an
-- absolute path of at most 4096 allowed characters with no `..`.
pub validate_mount_path_iff :
    (s : Text) → (validate_mount_path s ≡ none) ↔ ((s ≡ []) ⊎ (IsAbsolute s × IsPath s))
unfolding validate_mount_path
validate_mount_path_iff [] = (λ h. inl refl, λ h. refl)
validate_mount_path_iff (c ∷ s) = (
  λ h. inr (
    (slash_iff (c ∷ s)).0 (ground arith),
    record {
      short = ground arith;
      chars = (mount_chars (c ∷ s)).0 (ground arith);
      no_traversal = (NoTraversal-iff (c ∷ s)).0 (ground arith);
    },
  ),
  λ h. elim h [
    | inl e ↦ absurd (cc)
    | inr (a, k) ↦ ground (
      arith,
      (mount_chars (c ∷ s)).1 k.chars,
      (NoTraversal-iff (c ∷ s)).1 k.no_traversal,
      (slash_iff (c ∷ s)).1 a,
    )
  ],
)

-- A keeper ref is accepted exactly if it is not empty, does not begin with a slash, and has at
-- most 4096 characters, all of them allowed (slashes too), with no `..`.
pub validate_keeper_ref_iff :
    (s : Text) → (validate_keeper_ref s ≡ none) ↔ ((s ≢ []) × (¬ IsAbsolute s) × IsPath s)
unfolding validate_keeper_ref
validate_keeper_ref_iff [] = (λ h. absurd (cc), λ h. absurd (h.0 refl))
validate_keeper_ref_iff (c ∷ s) = (
  λ h. (
    λ e. cc,
    λ a. ground (arith, (slash_iff (c ∷ s)).1 a),
    record {
      short = ground arith;
      chars = (keeper_ref_chars (c ∷ s)).0 (ground arith);
      no_traversal = (NoTraversal-iff (c ∷ s)).0 (ground arith);
    },
  ),
  λ (ne, a, k). elim (Bool-cases (has_prefix (c ∷ s) (bytes "/"))) [
    | inl e ↦ absurd (a ((slash_iff (c ∷ s)).0 e))
    | inr e ↦
        ground (
          arith,
          (keeper_ref_chars (c ∷ s)).1 k.chars,
          (NoTraversal-iff (c ∷ s)).1 k.no_traversal,
          e,
        )
  ],
)
