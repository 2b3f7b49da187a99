-- ===== src/LogSafe/Clean.antt =====
-- What reaches the log holds no control character, and printable text is unchanged.
use chur.Base.{ℕ, ◌+◌, ◌≤◌, ◌<◌, [], ◌∷◌, List, ◌≡◌, refl, ap, ◌∙◌, ◌≢◌, arith, All, All-append}
use chur.Text.{Text}
use chur.Text.Runes.{runes, runes_from, decode_ascii}
use chur.LogSafe.{replace_byte, encode_rune, safe_rune, map_runes, value}

-- No C0 control character and no DEL.
abbrev pub IsPrintable : ℕ → Type 0
IsPrintable b = (0x20 ≤ b) × (b ≢ 0x7F)

encode_rune-IsPrintable : (r : ℕ) → All IsPrintable (encode_rune (safe_rune r))
unfolding encode_rune safe_rune
encode_rune-IsPrintable r = ground arith

map_runes-IsPrintable : (rs : List (ℕ × ℕ)) → All IsPrintable (map_runes safe_rune rs)
unfolding map_runes
map_runes-IsPrintable [] = tt
map_runes-IsPrintable ((i, r) ∷ rs) =
    All-append IsPrintable (encode_rune (safe_rune r)) (map_runes safe_rune rs)
      (encode_rune-IsPrintable r) (map_runes-IsPrintable rs)

-- Whatever the input, valid UTF-8 or not, no byte of the result is a C0 control character or DEL:
-- a logged value holds no line break and no escape byte.
pub value-IsPrintable : (s : Text) → All IsPrintable (value s)
unfolding value
value-IsPrintable s =
    map_runes-IsPrintable (runes (replace_byte b'\n' b'?' (replace_byte b'\r' b'?' s)))

-- Printable ASCII.
abbrev pub IsPlain : ℕ → Type 0
IsPlain b = (0x20 ≤ b) × (b < 0x7F)

replace_byte-plain : (old : ℕ) (s : Text) → old < 0x20 → All IsPlain s → replace_byte old b'?' s ≡ s
unfolding replace_byte
replace_byte-plain old [] low h = refl
replace_byte-plain old (b ∷ s) low h = ground (arith, replace_byte-plain old s low h.1)

encode_plain : (b : ℕ) → IsPlain b → encode_rune (safe_rune b) ≡ b ∷ []
unfolding encode_rune safe_rune
encode_plain b h = ground arith

map_runes-plain : (i : ℕ) (s : Text) → All IsPlain s → map_runes safe_rune (runes_from 0 i s) ≡ s
unfolding map_runes runes_from
map_runes-plain i [] h = refl
map_runes-plain i (b ∷ s) h =
    rw (decode_ascii b s (omega (arith, h.0.1)), encode_plain b h.0, map_runes-plain (i + 1) s h.1)

-- A value of printable ASCII characters is logged as it is.
pub value-plain : (s : Text) → All IsPlain s → value s ≡ s
unfolding value runes
value-plain s h =
    ap (λ t. map_runes safe_rune (runes_from 0 0 (replace_byte b'\n' b'?' t)))
      (replace_byte-plain b'\r' s (omega arith) h)
    ∙ ap (λ t. map_runes safe_rune (runes_from 0 0 t)) (replace_byte-plain b'\n' s (omega arith) h)
    ∙ map_runes-plain 0 s h
