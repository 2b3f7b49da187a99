-- ===== src/Url/Query.antt =====
-- What a server reads of a URL that a client asked for: url.Parse with Query().Get, as the
-- documentation of net/url describes them.
use chur.Base.{
  ℕ, ◌/◌, ◌%◌, ◌<◌, Bool, true, false, ◌||◌, Bool-cases, Option, none, some, List, [], ◌∷◌, ◌++◌,
  ◌≡◌, refl, ap, ◌∙◌, subst, inl, inr, arith, All, All-append, ◌==◌, ==_iff, if◌then◌else◌,
}
use chur.Text.{Text, bytes, contains_byte, split, text_eq}
use chur.Url.{is_unreserved, upper_hex, escape_byte, query_escape}
use chur.Url.Unescape.{query_unescape, query_unescape-query_escape}

-- strings.Cut at a byte: the text before it, and the text behind it where it was found.
pub cut_at : ℕ → Text → Text × Option Text
cut_at d [] = ([], none)
cut_at d (c ∷ s) =
    let (before, after) = cut_at d s in if c == d then ([], some s) else (c ∷ before, after)

-- The URL without its query, and the query: the fragment is cut off first.
abbrev pub cut_query : Text → Text × Option Text
cut_query url = cut_at b'?' (cut_at b'#' url).0

abbrev or_empty : Option Text → Text
or_empty none = []
or_empty (some v) = v

-- The value, if the pair could be unescaped and has this key.
abbrev named : Text → Option Text → Option Text → Option Text
named key none v = none
named key (some k) none = none
named key (some k) (some v) = if text_eq k key then some v else none

abbrev keyed : Text → Text × Option Text → Option Text
keyed key (k, v) = named key (query_unescape k) (query_unescape (or_empty v))

-- A pair of the query; one with a semicolon is left out.
abbrev pair_value : Text → Text → Option Text
pair_value key pair = if contains_byte pair b';' then none else keyed key (cut_at b'=' pair)

abbrev or_next : Option Text → Option Text → Option Text
or_next none next = next
or_next (some v) next = some v

-- The first value of a key.
pub first_value : Text → List Text → Option Text
first_value key [] = none
first_value key (pair ∷ pairs) = or_next (pair_value key pair) (first_value key pairs)

abbrev values_of : Text → Option Text → Option Text
values_of key none = none
values_of key (some query) = first_value key (split b'&' query)

pub query_value : Text → Text → Option Text
query_value key url = values_of key (cut_query url).1

-- A text without a byte.
abbrev pub Lacks : ℕ → Text → Type 0
Lacks d = All (λ c. (c == d) ≡ false)

cut_at-none : (d : ℕ) (s : Text) → Lacks d s → cut_at d s ≡ (s, none)
unfolding cut_at
cut_at-none d [] h = refl
cut_at-none d (c ∷ s) (n, h) = rw (cut_at-none d s h, n) refl

cut_at-first : (d : ℕ) (s rest : Text) → Lacks d s → cut_at d (s ++ d ∷ rest) ≡ (s, some rest)
unfolding cut_at
cut_at-first d [] rest h = rw ((==_iff d d).1 refl) refl
cut_at-first d (c ∷ s) rest (n, h) = rw (cut_at-first d s rest h, n) refl

split-one : (d : ℕ) (s : Text) → Lacks d s → split d s ≡ s ∷ []
unfolding split
split-one d [] h = refl
split-one d (c ∷ s) (n, h) = rw (split-one d s h, n) refl

contains-Lacks : (d : ℕ) (s : Text) → Lacks d s → contains_byte s d ≡ false
unfolding contains_byte
contains-Lacks d [] h = refl
contains-Lacks d (c ∷ s) (n, h) = rw (n, contains-Lacks d s h) refl

-- The bytes of an escaped query.
is_query : ℕ → Bool
is_query c = is_unreserved c || c == b'%' || c == b'+'

abbrev IsQuery : Text → Type 0
IsQuery = All (λ c. is_query c ≡ true)

upper_hex-is_query : (d : ℕ) → d < 16 → is_query (upper_hex d) ≡ true
unfolding is_query is_unreserved upper_hex
upper_hex-is_query d h = ground arith

escape_byte-IsQuery : (c : ℕ) → c < 256 → IsQuery (escape_byte c)
unfolding escape_byte is_query is_unreserved
escape_byte-IsQuery c h = (
  refl,
  (upper_hex-is_query (c / 16) (omega (arith, h)), (upper_hex-is_query (c % 16) (omega arith), tt)),
)

unreserved-is_query : (c : ℕ) → is_unreserved c ≡ true → is_query c ≡ true
unfolding is_query
unreserved-is_query c u = rw u refl

query_escape-IsQuery : (s : Text) → All (λ c. c < 256) s → IsQuery (query_escape s)
unfolding query_escape
query_escape-IsQuery [] h = tt
query_escape-IsQuery (c ∷ s) (b, h) =
    let rest = query_escape-IsQuery s h in
    elim (Bool-cases (is_unreserved c)) [
      | inl u ↦ rw u (unreserved-is_query c u, rest)
      | inr u ↦ elim (Bool-cases (c == b' ')) [
        | inl e ↦ rw (u, e) (unfold is_query in refl, rest)
        | inr e ↦
            rw (u, e)
              (All-append (λ c. is_query c ≡ true) (escape_byte c) (query_escape s)
                (escape_byte-IsQuery c b) rest)
      ]
    ]

-- It has none of the bytes that a URL or a query is cut at.
IsQuery-Lacks : (d : ℕ) (s : Text) → is_query d ≡ false → IsQuery s → Lacks d s
IsQuery-Lacks d [] n h = tt
IsQuery-Lacks d (c ∷ s) n (q, h) = (
  elim (Bool-cases (c == d)) [
    | inl t ↦
        let same : c ≡ d = (==_iff c d).0 t in
        absurd (cc (n, subst (λ x. is_query x ≡ true) same q))
    | inr t ↦ t
  ],
  IsQuery-Lacks d s n h,
)

ref_value :
    (value ref : Text)
    → IsQuery value
    → query_unescape value ≡ some ref
    → values_of (bytes "ref") (some (bytes "ref=" ++ value)) ≡ some ref
unfolding first_value cut_at text_eq is_unreserved
ref_value value ref h u =
    let no_and : Lacks b'&' (bytes "ref=" ++ value) =
      (refl, (refl, (refl, (refl, IsQuery-Lacks b'&' value (unfold is_query in refl) h)))) in
    let no_semicolon : Lacks b';' (bytes "ref=" ++ value) =
      (refl, (refl, (refl, (refl, IsQuery-Lacks b';' value (unfold is_query in refl) h)))) in
    let key : query_unescape (bytes "ref") ≡ some (bytes "ref") = unfold query_unescape in refl in
    rw
      (
        split-one b'&' (bytes "ref=" ++ value) no_and,
        contains-Lacks b';' (bytes "ref=" ++ value) no_semicolon,
        key,
        u,
      )
      refl

-- A base URL without a query and a fragment, followed by an escaped ref as its query, is read as
-- that base URL and that ref.
pub query_value-ref :
    (base ref : Text)
    → Lacks b'?' base
    → Lacks b'#' base
    → All (λ c. c < 256) ref
    → (let url = base ++ (bytes "?ref=" ++ query_escape ref) in
        ((cut_query url).0 ≡ base) × (query_value (bytes "ref") url ≡ some ref))
unfolding query_value is_unreserved
query_value-ref base ref n f h =
    let value = query_escape ref in
    let q = query_escape-IsQuery ref h in
    let no_fragment : Lacks b'#' (bytes "?ref=" ++ value) = (
      refl,
      (refl, (refl, (refl, (refl, IsQuery-Lacks b'#' value (unfold is_query in refl) q)))),
    ) in
    let whole =
      cut_at-none b'#' (base ++ (bytes "?ref=" ++ value))
        (All-append (λ c. (c == b'#') ≡ false) base (bytes "?ref=" ++ value) f no_fragment) in
    let cut : cut_query (base ++ (bytes "?ref=" ++ value)) ≡ (base, some (bytes "ref=" ++ value)) =
      ap (λ t. cut_at b'?' t.0) whole ∙ cut_at-first b'?' base (bytes "ref=" ++ value) n in
    (
      ap (λ t. t.0) cut,
      ap (λ t. values_of (bytes "ref") t.1) cut
          ∙ ref_value value ref q (query_unescape-query_escape ref h),
    )
