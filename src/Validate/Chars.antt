-- ===== src/Validate/Chars.antt =====
-- The loop over the runes, as a statement about the bytes.
use chur.Base.{
  ℕ, ◌+◌, ◌<◌, Bool, true, false, none, some, [], ◌∷◌, ◌++◌, ◌≡◌, refl, ap, ◌↔◌, inl, inr, arith,
  ltb, Bool-cases, All, length,
}
use chur.Text.{Text}
use chur.Text.Runes.{runes, runes_from, decode_rune, decode_ascii, decode_high}
use chur.Validate.{invalid_char, first_invalid}

-- A set of ASCII characters.
abbrev pub IsAscii : (ℕ → Bool) → Type 0
IsAscii allowed = (r : ℕ) → allowed r ≡ true → r < 128

module _ (allowed : ℕ → Bool) (ascii : IsAscii allowed) where
  -- One round of the loop, at a byte that is or is not allowed.
  first_invalid-cons_ok :
      (i b : ℕ) (bs : Text)
      → allowed b ≡ true
      → first_invalid allowed (runes_from 0 i (b ∷ bs))
        ≡ first_invalid allowed (runes_from 0 (i + 1) bs)
  unfolding first_invalid runes_from
  first_invalid-cons_ok i b bs h = rw (decode_ascii b bs (ascii b h), h)

  rune_not_allowed : (b : ℕ) (bs : Text) → allowed b ≡ false → allowed (decode_rune b bs).0 ≡ false
  rune_not_allowed b bs h = elim (Bool-cases (ltb b 128)) [
    | inl low ↦ rw (decode_ascii b bs (ground arith)) h
    | inr high ↦ elim (Bool-cases (allowed (decode_rune b bs).0)) [
      | inl yes' ↦
          absurd (omega (arith, ascii (decode_rune b bs).0 yes', decode_high b bs (ground arith)))
      | inr no' ↦ no'
    ]
  ]

  first_invalid-cons_bad :
      (i b : ℕ) (bs : Text)
      → allowed b ≡ false
      → first_invalid allowed (runes_from 0 i (b ∷ bs)) ≡ some (invalid_char (decode_rune b bs).0 i)
  unfolding first_invalid runes_from
  first_invalid-cons_bad i b bs h = rw (rune_not_allowed b bs h)

  from-All :
      (i : ℕ) (s : Text)
      → first_invalid allowed (runes_from 0 i s) ≡ none
      → All (λ b. allowed b ≡ true) s
  from-All i [] h = tt
  from-All i (b ∷ bs) h = elim (Bool-cases (allowed b)) [
    | inl e ↦ (e, from-All (i + 1) bs (rw (first_invalid-cons_ok i b bs e) at h))
    | inr e ↦ cc (first_invalid-cons_bad i b bs e)
  ]

  All-from :
      (i : ℕ) (s : Text)
      → All (λ b. allowed b ≡ true) s
      → first_invalid allowed (runes_from 0 i s) ≡ none
  All-from i [] h = unfold first_invalid runes_from in refl
  All-from i (b ∷ bs) h = rw (first_invalid-cons_ok i b bs h.0) (All-from (i + 1) bs h.1)

  -- The loop ends with no error exactly when every byte is allowed.
  pub first_invalid-none_iff :
      (s : Text) → (first_invalid allowed (runes s) ≡ none) ↔ All (λ b. allowed b ≡ true) s
  unfolding runes
  first_invalid-none_iff s = (from-All 0 s, All-from 0 s)

  -- The place where the loop stops: behind `read`, whose bytes are all allowed.
  pub record StopsAt (i : ℕ) (s : Text) (r at : ℕ) : Type 0 where
    pub read : Text
    pub byte : ℕ
    pub unread : Text
    pub splits : s ≡ read ++ (byte ∷ unread)
    pub position : at ≡ i + length read
    pub read_allowed : All (λ b. allowed b ≡ true) read
    pub refused : allowed byte ≡ false
    pub rune_is : r ≡ (decode_rune byte unread).0

  StopsAt-from :
      (i : ℕ) (s : Text) {r at : ℕ}
      → first_invalid allowed (runes_from 0 i s) ≡ some (invalid_char r at)
      → StopsAt i s r at
  StopsAt-from i [] h = absurd (unfold first_invalid runes_from in cc)
  StopsAt-from i (b ∷ bs) h = elim (Bool-cases (allowed b)) [
    | inl e ↦
        let later = StopsAt-from (i + 1) bs (rw (first_invalid-cons_ok i b bs e) at h) in
        record {
          read = b ∷ later.read;
          byte = later.byte;
          unread = later.unread;
          splits = ap (◌∷◌ b) later.splits;
          position = omega (arith, later.position);
          read_allowed = (e, later.read_allowed);
          refused = later.refused;
          rune_is = later.rune_is;
        }
    | inr e ↦ record {
      read = [];
      byte = b;
      unread = bs;
      splits = refl;
      position = ground (arith, first_invalid-cons_bad i b bs e);
      read_allowed = tt;
      refused = e;
      rune_is = ground (arith, first_invalid-cons_bad i b bs e);
    }
  ]

  pub first_invalid-StopsAt :
      (s : Text) {r at : ℕ}
      → first_invalid allowed (runes s) ≡ some (invalid_char r at)
      → StopsAt 0 s r at
  unfolding runes
  first_invalid-StopsAt s h = StopsAt-from 0 s h
