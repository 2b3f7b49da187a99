-- ===== src/Text/Laws.antt =====
-- What the functions on byte strings decide, stated without their loops.
use chur.Base.{
  ℕ, true, ◌||◌, none, some, [], ◌∷◌, ◌++◌, ◌≡◌, refl, ap, ◌↔◌, inl, inr, ◌≢◌, arith, Bool-cases,
}
use chur.Text.{Text, text_eq, has_prefix, contains, contains_byte, last_byte}

pub text_eq_iff : (a b : Text) → (text_eq a b ≡ true) ↔ (a ≡ b)
unfolding text_eq
text_eq_iff (x ∷ a) (y ∷ b) = ground (arith, text_eq_iff a b)
text_eq_iff _ _ = ground arith

pub text_eq_refl : (a : Text) → text_eq a a ≡ true
text_eq_refl a = (text_eq_iff a a).1 refl

-- `sub` stands somewhere in `s`.
abbrev pub Infix : Text → Text → Type 0
Infix sub s = (a : Text) × (b : Text) × (s ≡ a ++ (sub ++ b))

pub has_prefix_sound : (s p : Text) → has_prefix s p ≡ true → (b : Text) × (s ≡ p ++ b)
unfolding has_prefix
has_prefix_sound s [] h = (s, refl)
has_prefix_sound [] (p ∷ ps) h = cc
has_prefix_sound (x ∷ xs) (p ∷ ps) h =
    let (b, e) = has_prefix_sound xs ps (ground arith) in (b, ground arith)

pub has_prefix-append : (p b : Text) → has_prefix (p ++ b) p ≡ true
unfolding has_prefix
has_prefix-append [] b = refl
has_prefix-append (x ∷ p) b = ground (arith, has_prefix-append p b)

pub contains-Infix : (s sub : Text) → contains s sub ≡ true → Infix sub s
unfolding contains
contains-Infix [] sub h = let (b, e) = has_prefix_sound [] sub h in ([], b, e)
contains-Infix (x ∷ xs) sub h = elim (Bool-cases (has_prefix (x ∷ xs) sub)) [
  | inl e ↦ let (b, q) = has_prefix_sound (x ∷ xs) sub e in ([], b, q)
  | inr e ↦ let (a, b, q) = contains-Infix xs sub (rw e at h) in (x ∷ a, b, ap (◌∷◌ x) q)
]

pub contains-append : (a sub b : Text) → contains (a ++ (sub ++ b)) sub ≡ true
unfolding contains
contains-append [] [] [] = refl
contains-append [] [] (y ∷ b) = refl
contains-append [] (x ∷ sub) b = rw (has_prefix-append (x ∷ sub) b)
contains-append (x ∷ a) sub b = ground (arith, contains-append a sub b)

pub contains_iff : (s sub : Text) → (contains s sub ≡ true) ↔ Infix sub s
contains_iff s sub = (contains-Infix s sub, λ (a, b, e). rw e (contains-append a sub b))

pub contains_byte-append :
    (xs ys : Text) (c : ℕ) → contains_byte (xs ++ ys) c ≡ (contains_byte xs c || contains_byte ys c)
unfolding contains_byte
contains_byte-append [] ys c = refl
contains_byte-append (x ∷ xs) ys c = ground (arith, contains_byte-append xs ys c)

pub last_byte-append : (front : Text) (c : ℕ) → last_byte (front ++ (c ∷ [])) ≡ some c
unfolding last_byte
last_byte-append [] c = refl
last_byte-append (x ∷ []) c = refl
last_byte-append (x ∷ y ∷ front) c = last_byte-append (y ∷ front) c

pub last_byte-split :
    (s : Text) (c : ℕ) → last_byte s ≡ some c → (front : Text) × (s ≡ front ++ (c ∷ []))
unfolding last_byte
last_byte-split [] c h = absurd (cc)
last_byte-split (x ∷ []) c h = ([], ground arith)
last_byte-split (x ∷ y ∷ s) c h =
    let (front, e) = last_byte-split (y ∷ s) c h in (x ∷ front, ap (◌∷◌ x) e)

pub last_byte-cons : (c : ℕ) (s : Text) → last_byte (c ∷ s) ≢ none
unfolding last_byte
last_byte-cons c [] = λ e. cc
last_byte-cons c (x ∷ s) = last_byte-cons x s
