-- ===== src/Validate/SecretRef.antt =====
-- ValidateSecretRef and ValidateSecretKey accept exactly the names that the specification allows.
use chur.Base.{
  ℕ, ◌≤◌, false, none, some, [], ◌∷◌, ◌++◌, ◌≡◌, refl, ◌↔◌, ◌⊎◌, inl, inr, ◌≢◌, arith, Bool-cases,
  Option-cases, All, All-append_right, length,
}
use chur.Text.{Text, bytes, text_eq, contains, first_byte, last_byte, is_empty}
use chur.Text.Runes.{runes}
use chur.Text.Laws.{text_eq_iff, last_byte-append, last_byte-split}
use chur.Validate.{
  validate_secret_ref, dotdot, has_slash, is_dash_or_dot, first_invalid, is_allowed_rune,
}
use chur.Validate.Spec.{
  IsAlnum, IsRefChar, allowed_chars, NoTraversal-iff, has_slash-false, is_empty-false, NoTraversal,
}

-- A name that is safe as a file name in the mount: one path element, of bounded length.
pub record IsSecretRef (s : Text) : Type 0 where
  pub ne_empty : s ≢ []
  pub short : length s ≤ 255
  pub chars : All IsRefChar s
  pub no_traversal : NoTraversal s
  pub first_ok : (c : ℕ) (rest : Text) → s ≡ c ∷ rest → IsAlnum c ⊎ (c ≡ b'_')
  pub last_ok : (c : ℕ) (front : Text) → s ≡ front ++ (c ∷ []) → IsAlnum c ⊎ (c ≡ b'_')

abbrev Accepts : Text → Type 0
Accepts s =
    (is_empty s ≡ false)
    × (length s ≤ 255)
    × (text_eq s (bytes ".") ≡ false)
    × (contains s dotdot ≡ false)
    × (has_slash s ≡ false)
    × (first_invalid is_allowed_rune (runes s) ≡ none)
    × (is_dash_or_dot (first_byte s) ≡ false)
    × (is_dash_or_dot (last_byte s) ≡ false)

tests_pass : (s : Text) → (validate_secret_ref s ≡ none) ↔ Accepts s
unfolding validate_secret_ref
tests_pass s = ground arith

-- A reference character at an end of the name is not a dash or a dot.
end_ok :
    (c : ℕ)
    → (IsRefChar c → is_dash_or_dot (some c) ≡ false → IsAlnum c ⊎ (c ≡ b'_'))
      × (IsAlnum c ⊎ (c ≡ b'_') → is_dash_or_dot (some c) ≡ false)
unfolding is_dash_or_dot
end_ok c = (λ r h. ground arith, λ h. ground arith)

accepted : (s : Text) → Accepts s → IsSecretRef s
accepted s (ne, short, dot, up, slash, chars, first, last) =
    let cs = (allowed_chars s).0 chars in
    record {
      ne_empty = λ e. cc (rw e at ne);
      short = short;
      chars = cs;
      no_traversal = (NoTraversal-iff s).0 up;
      first_ok = λ c rest e. (end_ok c).0 (rw e at cs).0 (rw e at first);
      last_ok = λ c front e.
          (end_ok c).0 (All-append_right _ front (c ∷ []) (rw e at cs)).0
            (rw (e, last_byte-append front c) at last);
    }

first_byte-ok : (s : Text) → IsSecretRef s → is_dash_or_dot (first_byte s) ≡ false
first_byte-ok [] r = absurd (r.ne_empty refl)
first_byte-ok (c ∷ s) r = (end_ok c).1 (r.first_ok c s refl)

last_byte-ok : (s : Text) → IsSecretRef s → is_dash_or_dot (last_byte s) ≡ false
last_byte-ok s r = elim (Option-cases (last_byte s)) [
  | inl e ↦ rw e (unfold is_dash_or_dot in refl)
  | inr (c, e) ↦ let (front, q) = last_byte-split s c e in rw e ((end_ok c).1 (r.last_ok c front q))
]

not_dot : (s : Text) → IsSecretRef s → text_eq s (bytes ".") ≡ false
not_dot s r = elim (Bool-cases (text_eq s (bytes "."))) [
  | inl e ↦ absurd (ground (arith, r.first_ok b'.' [] ((text_eq_iff s (bytes ".")).0 e)))
  | inr e ↦ e
]

-- The annotation value is accepted exactly if it is a safe file name: not empty, at most 255 bytes
-- of letters, digits, dash, underscore and dot, with no `..`, and with no dash or dot at either
-- end.
pub validate_secret_ref_iff : (s : Text) → (validate_secret_ref s ≡ none) ↔ IsSecretRef s
validate_secret_ref_iff s = (
  λ h. accepted s ((tests_pass s).0 h),
  λ r. (tests_pass s).1 (
    is_empty-false s r.ne_empty,
    r.short,
    not_dot s r,
    (NoTraversal-iff s).1 r.no_traversal,
    has_slash-false s r.chars,
    (allowed_chars s).1 r.chars,
    first_byte-ok s r,
    last_byte-ok s r,
  ),
)
