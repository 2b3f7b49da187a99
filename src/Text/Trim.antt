-- ===== src/Text/Trim.antt =====
-- strings.TrimSpace, strings.HasSuffix and slices of a string.
use mathlib.Core.List.{reverse}
use chur.Base.{
  ℕ, zero, suc, ◌-◌, Bool, ◌&&◌, ◌||◌, List, [], ◌∷◌, leb, ◌==◌, within, if◌then◌else◌, length,
  drop,
}
use chur.Text.{Text, text_eq}
use chur.Text.Runes.{decode_rune, rune_error}

-- unicode.IsSpace
unfoldable pub is_space : ℕ → Bool
is_space r =
    within 9 13 r
    || r == 0x20
    || r == 0x85
    || r == 0xA0
    || r == 0x1680
    || within 0x2000 0x200A r
    || r == 0x2028
    || r == 0x2029
    || r == 0x202F
    || r == 0x205F
    || r == 0x3000

-- utf8.DecodeLastRune on the reversed bytes: back to a byte that may start a rune, four at most,
-- whose rune must end where the text ends. `seen` holds the bytes passed, in order.
unfoldable pub decode_last : ℕ → List ℕ → List ℕ → ℕ × ℕ
unfolding decode_rune
decode_last zero seen back = (rune_error, 1)
decode_last (suc k) seen [] = (rune_error, 1)
decode_last (suc k) seen (b ∷ back) =
    let further = decode_last k (b ∷ seen) back in
    let (r, w) = decode_rune b seen in
    if within 0x80 0xBF b
    then further
    else if w == suc (length seen)
    then (r, w)
    else (rune_error, 1)

-- `skip` counts the bytes left of a rune that is dropped.
unfoldable pub trim_left : ℕ → Text → Text
unfolding decode_rune is_space
trim_left skip [] = []
trim_left zero (b ∷ bs) =
    let (r, w) = decode_rune b bs in
    let rest = trim_left (w - 1) bs in if is_space r then rest else b ∷ bs
trim_left (suc k) (b ∷ bs) = trim_left k bs

-- The same at the other end, on the reversed bytes.
unfoldable pub trim_back : ℕ → List ℕ → List ℕ
unfolding decode_last is_space
trim_back skip [] = []
trim_back zero (b ∷ back) =
    let (r, w) = decode_last 4 [] (b ∷ back) in
    let rest = trim_back (w - 1) back in if is_space r then rest else b ∷ back
trim_back (suc k) (b ∷ back) = trim_back k back

-- strings.TrimSpace(s)
unfoldable pub trim_space : Text → Text
unfolding trim_left trim_back
trim_space s = reverse (trim_back 0 (reverse (trim_left 0 s)))

-- strings.HasSuffix(s, suffix)
unfoldable pub has_suffix : Text → Text → Bool
unfolding text_eq
has_suffix s suffix =
    leb (length suffix) (length s) && text_eq (drop (length s - length suffix) s) suffix
