-- ===== src/Url/Unescape.antt =====
-- What a server reads of an escaped query: url.QueryUnescape, as its documentation describes it.
use chur.Base.{
  ℕ, ◌+◌, ◌-◌, ◌*◌, ◌/◌, ◌%◌, ◌<◌, true, false, Bool-cases, Option, none, some, [], ◌∷◌, ◌++◌, ◌≡◌,
  refl, ap, ◌∙◌, subst, inl, inr, arith, All, ◌==◌, within, if◌then◌else◌,
}
use chur.Text.{Text}
use chur.Url.{is_unreserved, upper_hex, escape_byte, query_escape}

-- The value of a hexadecimal digit.
pub hex_value : ℕ → Option ℕ
hex_value c =
    if within b'0' b'9' c
    then some (c - b'0')
    else if within b'A' b'F' c
    then some (c - b'A' + 10)
    else if within b'a' b'f' c
    then some (c - b'a' + 10)
    else none

abbrev prepend : Option ℕ → Option Text → Option Text
prepend none r = none
prepend (some c) none = none
prepend (some c) (some s) = some (c ∷ s)

abbrev pair : Option ℕ → Option ℕ → Option ℕ
pair none l = none
pair (some h) none = none
pair (some h) (some l) = some (h * 16 + l)

-- A byte that stands for itself, or for a space.
abbrev plain : ℕ → Option ℕ
plain c = if c == b'%' then none else if c == b'+' then some b' ' else some c

unfoldable pub query_unescape : Text → Option Text
query_unescape [] = some []
query_unescape (c ∷ []) = prepend (plain c) (some [])
query_unescape (c ∷ h ∷ []) = prepend (plain c) (query_unescape (h ∷ []))
query_unescape (c ∷ h ∷ l ∷ s) =
    let decoded = prepend (pair (hex_value h) (hex_value l)) (query_unescape s) in
    let rest = prepend (plain c) (query_unescape (h ∷ l ∷ s)) in if c == b'%' then decoded else rest

plain_first :
    (c : ℕ) (s : Text)
    → (c == b'%') ≡ false
    → query_unescape (c ∷ s) ≡ prepend (plain c) (query_unescape s)
unfolding query_unescape
plain_first c [] h = refl
plain_first c (d ∷ []) h = refl
plain_first c (d ∷ e ∷ s) h = rw h refl

hex_digit : (d : ℕ) → d < 16 → hex_value (upper_hex d) ≡ some d
unfolding hex_value upper_hex
hex_digit d h = ground arith

escaped_first :
    (c : ℕ) (s : Text)
    → c < 256
    → query_unescape (escape_byte c ++ s) ≡ prepend (some c) (query_unescape s)
unfolding query_unescape escape_byte
escaped_first c s h =
    let high = hex_digit (c / 16) (omega (arith, h)) in
    let low = hex_digit (c % 16) (omega arith) in
    let whole : c / 16 * 16 + c % 16 ≡ c = omega arith in
    rw (high, low) (ap (λ n. prepend (some n) (query_unescape s)) whole)

unreserved_plain : (c : ℕ) → is_unreserved c ≡ true → ((c == b'%') ≡ false) × ((c == b'+') ≡ false)
unfolding is_unreserved
unreserved_plain c h = (ground arith, ground arith)

kept_first :
    (c : ℕ) (s : Text)
    → is_unreserved c ≡ true
    → query_unescape (c ∷ s) ≡ prepend (some c) (query_unescape s)
kept_first c s h = let (p, q) = unreserved_plain c h in plain_first c s p ∙ rw (p, q) refl

-- A server that unescapes a query gets the text that was escaped, for every text of bytes.
pub query_unescape-query_escape :
    (s : Text) → All (λ c. c < 256) s → query_unescape (query_escape s) ≡ some s
unfolding query_escape
query_unescape-query_escape [] h = unfold query_unescape in refl
query_unescape-query_escape (c ∷ s) (b, h) =
    let rest = ap (prepend (some c)) (query_unescape-query_escape s h) in
    elim (Bool-cases (is_unreserved c)) [
      | inl u ↦ rw u (kept_first c (query_escape s) u ∙ rest)
      | inr u ↦ elim (Bool-cases (c == b' ')) [
        | inl e ↦
            let blank : c ≡ b' ' = ground arith in
            rw (u, e)
              (plain_first b'+' (query_escape s) refl
                ∙ subst (λ n. prepend (some n) (query_unescape (query_escape s)) ≡ some (c ∷ s))
                    blank rest)
        | inr e ↦ rw (u, e) (escaped_first c (query_escape s) b ∙ rest)
      ]
    ]
