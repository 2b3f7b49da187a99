-- ===== src/Text/Trimmed.antt =====
-- TrimSpace leaves a text alone that begins and ends with ASCII characters other than spaces.
use mathlib.Core.List.{reverse, reverse-append, reverse-reverse}
use chur.Base.{ℕ, ◌<◌, false, [], ◌∷◌, ◌++◌, ◌≡◌, sym, ap, ◌∙◌, arith}
use chur.Text.{Text}
use chur.Text.Runes.{decode_ascii}
use chur.Text.Trim.{is_space, decode_last, trim_left, trim_back, trim_space}

-- An ASCII character that is no space.
abbrev pub IsMark : ℕ → Type 0
IsMark c = (0x20 < c) × (c < 0x80)

not_space : (c : ℕ) → IsMark c → is_space c ≡ false
unfolding is_space
not_space c h = ground arith

decode_last-ascii : (c : ℕ) (back : Text) → c < 0x80 → decode_last 4 [] (c ∷ back) ≡ (c, 1)
unfolding decode_last
decode_last-ascii c back h = rw (decode_ascii c [] h) (ground arith)

trim_left-mark : (c : ℕ) (s : Text) → IsMark c → trim_left 0 (c ∷ s) ≡ c ∷ s
unfolding trim_left
trim_left-mark c s h = rw (decode_ascii c s h.1, not_space c h)

trim_back-mark : (c : ℕ) (s : Text) → IsMark c → trim_back 0 (c ∷ s) ≡ c ∷ s
unfolding trim_back
trim_back-mark c s h = rw (decode_last-ascii c s h.1, not_space c h)

pub trim_space-marks :
    (c : ℕ) (s front : Text) (d : ℕ)
    → IsMark c
    → IsMark d
    → c ∷ s ≡ front ++ (d ∷ [])
    → trim_space (c ∷ s) ≡ c ∷ s
unfolding trim_space
trim_space-marks c s front d hc hd e =
    ap (λ t. reverse (trim_back 0 (reverse t))) (trim_left-mark c s hc ∙ e)
    ∙ ap (λ t. reverse (trim_back 0 t)) (reverse-append front (d ∷ []))
    ∙ ap reverse (trim_back-mark d (reverse front) hd)
    ∙ reverse-append (d ∷ []) (reverse front)
    ∙ ap (λ t. t ++ (d ∷ [])) (reverse-reverse front)
    ∙ sym e
