-- ===== src/LogSafe.antt =====
-- internal/logsafe/logsafe.go
pub mod Clean
use chur.Base.{
  ℕ, zero, suc, ◌+◌, ◌-◌, ◌*◌, ◌/◌, ◌%◌, Bool, ◌||◌, List, [], ◌∷◌, ◌++◌, ltb, ◌==◌, within,
  if◌then◌else◌,
}
use chur.Text.{Text}
use chur.Text.Runes.{runes, rune_error}

-- strings.ReplaceAll(s, old, new), where both are one byte
unfoldable pub replace_byte : ℕ → ℕ → Text → Text
replace_byte old new [] = []
replace_byte old new (b ∷ bs) = (if b == old then new else b) ∷ replace_byte old new bs

-- utf8.AppendRune: U+FFFD for a surrogate or what is past U+10FFFF
unfoldable pub encode_rune : ℕ → Text
encode_rune r =
    if ltb r 0x80
    then r ∷ []
    else if ltb r 0x800
    then (0xC0 + r / 64) ∷ (0x80 + r % 64) ∷ []
    else if within 0xD800 0xDFFF r || ltb 0x10FFFF r
    then 0xEF ∷ 0xBF ∷ 0xBD ∷ []
    else if ltb r 0x10000
    then (0xE0 + r / 4096) ∷ (0x80 + r / 64 % 64) ∷ (0x80 + r % 64) ∷ []
    else (0xF0 + r / 262144) ∷ (0x80 + r / 4096 % 64) ∷ (0x80 + r / 64 % 64) ∷ (0x80 + r % 64) ∷ []

-- The function that `Value` maps over the runes.
unfoldable pub safe_rune : ℕ → ℕ
safe_rune r = if ltb r 0x20 || r == 0x7F then b'?' else r

-- strings.Map over the runes: an invalid byte is the rune U+FFFD.
unfoldable pub map_runes : (ℕ → ℕ) → List (ℕ × ℕ) → Text
unfolding encode_rune
map_runes f [] = []
map_runes f ((i, r) ∷ rest) = encode_rune (f r) ++ map_runes f rest

unfoldable pub value : Text → Text
unfolding replace_byte map_runes safe_rune runes
value s = map_runes safe_rune (runes (replace_byte b'\n' b'?' (replace_byte b'\r' b'?' s)))
