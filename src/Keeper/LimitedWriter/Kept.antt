-- ===== src/Keeper/LimitedWriter/Kept.antt =====
-- What the limited writer keeps.
use chur.Base.{
  ℕ, zero, suc, ◌⊎◌, ◌+◌, ◌-◌, ◌≤◌, ◌<◌, true, false, List, [], ◌∷◌, ◌++◌, ◌≡◌, ◌≢◌, refl, ◌∙◌, ap,
  inl, inr, arith, append-nil, append_assoc, ltb, leb, length, length-append, length-take, take,
  take_all, All,
}
use chur.Text.{Text}
use chur.Keeper.LimitedWriter.{LimitedWriter, marker, mark, write, write_all, new, concat, kept}

-- The writers that hold the whole input, and its first bytes and the mark.
abbrev pub holding : ℕ → Text → LimitedWriter
holding limit input = record { buf = input; limit = limit; overflow = false }

abbrev pub holding_cut : ℕ → Text → LimitedWriter
holding_cut limit input = record {
  buf = take limit input ++ marker;
  limit = limit;
  overflow = true;
}

-- The writer behind the input so far.
pub data IsBehind (limit : ℕ) (input : Text) (w : LimitedWriter) : Type 0 where
  whole : w ≡ holding limit input → length input ≤ limit → IsBehind limit input w
  cut : w ≡ holding_cut limit input → limit < length input → IsBehind limit input w

take-append_more :
    (n : ℕ) (xs ys : Text) → length xs ≤ n → take n (xs ++ ys) ≡ xs ++ take (n - length xs) ys
take-append_more n [] ys h = let e : n - 0 ≡ n = omega arith in rw e refl
take-append_more zero (x ∷ xs) ys h = absurd (omega arith)
take-append_more (suc n) (x ∷ xs) ys h =
    let e : suc n - suc (length xs) ≡ n - length xs = omega arith in
    rw e (ap (◌∷◌ x) (take-append_more n xs ys (omega arith)))

take-append_less : (n : ℕ) (xs ys : Text) → n ≤ length xs → take n (xs ++ ys) ≡ take n xs
take-append_less zero xs ys h = refl
take-append_less (suc n) [] ys h = absurd (omega arith)
take-append_less (suc n) (x ∷ xs) ys h = ap (◌∷◌ x) (take-append_less n xs ys (omega arith))

length-ne : (p : Text) → p ≢ [] → 0 < length p
length-ne [] h = absurd (h refl)
length-ne (c ∷ p) h = omega arith

write-full : (w : LimitedWriter) (p : Text) → w.limit ≤ length w.buf → (write w p).0 ≡ mark w
unfolding write
write-full w p h = let t : leb w.limit (length w.buf) ≡ true = ground arith in rw t refl

write-fitting :
    (limit : ℕ) (input p : Text)
    → length input < limit
    → length input + length p ≤ limit
    → (write (holding limit input) p).0 ≡ holding limit (input ++ p)
unfolding write
write-fitting limit input p h f =
    let t : leb limit (length input) ≡ false = ground arith in
    let u : ltb (limit - length input) (length p) ≡ false = ground arith in rw (t, u) refl

write-cutting :
    (limit : ℕ) (input p : Text)
    → length input < limit
    → limit < length input + length p
    → (write (holding limit input) p).0 ≡ holding_cut limit (input ++ p)
unfolding write mark
write-cutting limit input p h f =
    let t : leb limit (length input) ≡ false = ground arith in
    let u : ltb (limit - length input) (length p) ≡ true = ground arith in
    rw (t, u, take-append_more limit input p (omega arith)) refl

mark-full :
    (limit : ℕ) (input p : Text)
    → length input ≡ limit
    → mark (holding limit input) ≡ holding_cut limit (input ++ p)
unfolding mark
mark-full limit input p h =
    rw (take-append_less limit input p (omega arith), take_all limit input (omega arith)) refl

mark-cut :
    (limit : ℕ) (input p : Text)
    → limit < length input
    → mark (holding_cut limit input) ≡ holding_cut limit (input ++ p)
unfolding mark
mark-cut limit input p h = rw (take-append_less limit input p (omega arith)) refl

compared : (a b c : ℕ) → a ≤ b → (a ≡ b) ⊎ ((a < b) × (a + c ≤ b)) ⊎ ((a < b) × (b < a + c))
compared a b c h = ground arith

write-IsBehind :
    (limit : ℕ) (input : Text) (w : LimitedWriter) (p : Text)
    → p ≢ []
    → IsBehind limit input w
    → IsBehind limit (input ++ p) (write w p).0
write-IsBehind limit input w p ne (whole e fits) =
    let pl = length-ne p ne in
    let sum = length-append input p in
    rw e (elim (compared (length input) limit (length p) fits) [
      | inl full ↦
          cut (write-full (holding limit input) p (omega arith) ∙ mark-full limit input p full)
            (omega arith)
      | inr (inl (h, f)) ↦ whole (write-fitting limit input p h f) (omega arith)
      | inr (inr (h, f)) ↦ cut (write-cutting limit input p h f) (omega arith)
    ])
write-IsBehind limit input w p ne (cut e over) =
    let sum = length-append input p in
    let len = length-append (take limit input) marker in
    let l = length-take limit input in
    rw e (
      cut (write-full (holding_cut limit input) p (omega arith) ∙ mark-cut limit input p over)
        (omega arith))

write_all-IsBehind :
    (limit : ℕ) (input : Text) (w : LimitedWriter) (ps : List Text)
    → All (λ p. p ≢ []) ps
    → IsBehind limit input w
    → IsBehind limit (input ++ concat ps) (write_all w ps)
unfolding write_all concat
write_all-IsBehind limit input w [] h i = rw append-nil i
write_all-IsBehind limit input w (p ∷ ps) h i = rw (← append_assoc) (
    write_all-IsBehind limit (input ++ p) (write w p).0 ps h.1
      (write-IsBehind limit input w p h.0 i))

buf-kept :
    (limit : ℕ) (input : Text) (w : LimitedWriter)
    → IsBehind limit input w
    → w.buf ≡ kept limit input
unfolding kept
buf-kept limit input w (whole e fits) =
    let t : ltb limit (length input) ≡ false = ground arith in rw (e, t) refl
buf-kept limit input w (cut e over) =
    let t : ltb limit (length input) ≡ true = ground arith in rw (e, t) refl

-- However a command splits its standard error into writes that are not empty, a new limited
-- writer holds all of it if it fits within the limit, and else its first bytes up to the limit
-- and one mark.
pub write_all-kept :
    (limit : ℕ) (ps : List Text)
    → All (λ p. p ≢ []) ps
    → (write_all (new limit) ps).buf ≡ kept limit (concat ps)
unfolding new
write_all-kept limit ps h =
    buf-kept limit (concat ps) (write_all (new limit) ps)
      (write_all-IsBehind limit [] (new limit) ps h (whole refl (omega arith)))

-- A write reports all of its bytes as written, so that the command is never stopped by it.
pub write-reports : (w : LimitedWriter) (p : Text) → (write w p).1 ≡ length p
unfolding write
write-reports w p = ground arith
