-- ===== src/Text/Runes.antt =====
-- The runes that `for i, r := range s` visits: Go's UTF-8 decoding, one position and rune a step.
-- An invalid sequence gives U+FFFD and advances by one byte.
use chur.Base.{
  ℕ, zero, suc, ◌+◌, ◌-◌, ◌*◌, ◌≤◌, ◌<◌, Bool, ◌&&◌, List, [], ◌∷◌, ◌≡◌, arith, ltb, ◌==◌, within,
  if◌then◌else◌,
}

-- utf8.RuneError
abbrev pub rune_error : ℕ
rune_error = 0xFFFD

abbrev is_continuation : ℕ → Bool
is_continuation b = within 0x80 0xBF b

decode_two : ℕ → List ℕ → ℕ × ℕ
decode_two b0 (b1 ∷ _) =
    if is_continuation b1 then ((b0 - 0xC0) * 64 + (b1 - 0x80), 2) else (rune_error, 1)
decode_two b0 [] = (rune_error, 1)

-- The second byte of E0 and ED has a narrower range: no overlong form, no surrogate.
decode_three : ℕ → List ℕ → ℕ × ℕ
decode_three b0 (b1 ∷ b2 ∷ _) =
    if within (if b0 == 0xE0 then 0xA0 else 0x80) (if b0 == 0xED then 0x9F else 0xBF) b1
      && is_continuation b2
    then ((b0 - 0xE0) * 4096 + (b1 - 0x80) * 64 + (b2 - 0x80), 3)
    else (rune_error, 1)
decode_three b0 _ = (rune_error, 1)

-- The second byte of F0 and F4 has a narrower range: no overlong form, at most U+10FFFF.
decode_four : ℕ → List ℕ → ℕ × ℕ
decode_four b0 (b1 ∷ b2 ∷ b3 ∷ _) =
    if within (if b0 == 0xF0 then 0x90 else 0x80) (if b0 == 0xF4 then 0x8F else 0xBF) b1
      && is_continuation b2
      && is_continuation b3
    then ((b0 - 0xF0) * 262144 + (b1 - 0x80) * 4096 + (b2 - 0x80) * 64 + (b3 - 0x80), 4)
    else (rune_error, 1)
decode_four b0 _ = (rune_error, 1)

-- The rune at the front of the bytes `b0 ∷ bs`, and how many bytes it takes.
unfoldable pub decode_rune : ℕ → List ℕ → ℕ × ℕ
unfolding decode_two decode_three decode_four
decode_rune b0 bs =
    if ltb b0 0x80
    then (b0, 1)
    else if within 0xC2 0xDF b0
    then decode_two b0 bs
    else if within 0xE0 0xEF b0
    then decode_three b0 bs
    else if within 0xF0 0xF4 b0
    then decode_four b0 bs
    else (rune_error, 1)

-- The first argument counts the bytes left of a rune already read, the second is the position.
unfoldable pub runes_from : ℕ → ℕ → List ℕ → List (ℕ × ℕ)
runes_from skip i [] = []
runes_from zero i (b ∷ bs) = let (r, w) = decode_rune b bs in (i, r) ∷ runes_from (w - 1) (i + 1) bs
runes_from (suc k) i (b ∷ bs) = runes_from k (i + 1) bs

unfoldable pub runes : List ℕ → List (ℕ × ℕ)
unfolding runes_from decode_rune
runes = runes_from 0 0

pub decode_ascii : (b : ℕ) (bs : List ℕ) → b < 128 → decode_rune b bs ≡ (b, 1)
unfolding decode_rune
decode_ascii b bs h = ground arith

two_high : (b : ℕ) (bs : List ℕ) → 0xC2 ≤ b → 128 ≤ (decode_two b bs).0
unfolding decode_two
two_high b [] h = omega arith
two_high b (c ∷ bs) h = ground arith

three_high : (b : ℕ) (bs : List ℕ) → 0xE0 ≤ b → 128 ≤ (decode_three b bs).0
unfolding decode_three
three_high b [] h = omega arith
three_high b (c ∷ []) h = omega arith
three_high b (c ∷ d ∷ bs) h = ground arith

four_high : (b : ℕ) (bs : List ℕ) → 0xF0 ≤ b → 128 ≤ (decode_four b bs).0
unfolding decode_four
four_high b [] h = omega arith
four_high b (c ∷ []) h = omega arith
four_high b (c ∷ d ∷ []) h = omega arith
four_high b (c ∷ d ∷ e ∷ bs) h = ground arith

-- A byte outside ASCII begins no ASCII rune.
pub decode_high : (b : ℕ) (bs : List ℕ) → 128 ≤ b → 128 ≤ (decode_rune b bs).0
unfolding decode_rune
decode_high b bs h =
    unfold decode_rune in ground (arith, two_high b bs, three_high b bs, four_high b bs)
