-- ===== src/ReadUtil/Bounded.antt =====
-- A bounded read returns the whole secret or an error, never a part of it.
use chur.Base.{
  ◌≤◌, ℕ, ◌+◌, ◌<◌, true, false, Option, none, some, [], ◌≡◌, refl, sym, ap, inl, inr, arith, ltb,
  leb, if◌then◌else◌, Bool-cases, Result, ok, err, length, take, length-take,
}
use chur.Base.Int.{pos, max_int64, succ_int64, wrap_int64, wrap_int64-pos}
use chur.Text.{Text}
use chur.Io.{Stream, read_limited}
use chur.ReadUtil.{
  ReadError, cancelled, read_failed, too_large, Race, ctx_done, read_done, Reader, check_read,
  read_with_context,
}

pub succ_int64-pos : (n : ℕ) → n < max_int64 → succ_int64 (pos n) ≡ pos (n + 1)
unfolding succ_int64
succ_int64-pos n h = wrap_int64-pos (n + 1) (omega arith)

module _ {ℓ} {E : Type ℓ} where
  outcome : Text → Option E → Result (ReadError E) Text
  outcome content none = ok content
  outcome content (some e) = err (read_failed e)

  -- What a read with this limit must give: the content when it fits and the reader does not fail,
  -- the size error when it does not fit, and the reader's error otherwise.
  pub bounded : ℕ → Stream E → Result (ReadError E) Text
  unfolding outcome
  bounded max s = if ltb max (length s.content) then err too_large else outcome s.content s.failure

  -- The whole content of a reader that did not fail, within the limit.
  pub record IsContent (max : ℕ) (s : Stream E) (content : Text) : Type ℓ where
    pub whole : content ≡ s.content
    pub no_failure : s.failure ≡ none
    pub fits : length content ≤ max

  outcome-ok :
      (content : Text) (o : Option E) {result : Text}
      → outcome content o ≡ ok result
      → (result ≡ content) × (o ≡ none)
  unfolding outcome
  outcome-ok content none h = (cc, refl)
  outcome-ok content (some e) h = cc

  pub bounded-IsContent :
      (max : ℕ) (s : Stream E) {content : Text}
      → bounded max s ≡ ok content
      → IsContent max s content
  unfolding bounded
  bounded-IsContent max s h = elim (Bool-cases (ltb max (length s.content))) [
    | inl over ↦ absurd (cc (rw over at h))
    | inr fits ↦
        let (w, n) = outcome-ok s.content s.failure (rw fits at h) in
        record { whole = w; no_failure = n; fits = rw w (ground arith) }
  ]

  pub IsContent-bounded :
      (max : ℕ) (s : Stream E) {content : Text}
      → IsContent max s content
      → bounded max s ≡ ok content
  unfolding bounded outcome
  IsContent-bounded max s k =
      let fits : ltb max (length s.content) ≡ false = ground (arith, k.fits, ap length k.whole) in
      rw (fits, k.no_failure) (ap ok (sym k.whole))

  check_fitting :
      (max : ℕ) (content : Text) (o : Option E)
      → ltb max (length content) ≡ false
      → check_read (pos max) (content, o) ≡ outcome content o
  unfolding check_read outcome
  check_fitting max content none fits = rw fits
  check_fitting max content (some e) fits = refl

  check_read-bounded :
      (max : ℕ) (s : Stream E)
      → check_read (pos max) (read_limited (pos (max + 1)) s) ≡ bounded max s
  unfolding read_limited bounded
  check_read-bounded max s = elim (Bool-cases (ltb max (length s.content))) [
    | inl over ↦
        let more : leb (max + 1) (length s.content) ≡ true = ground arith in
        let cut : ltb max (length (take (max + 1) s.content)) ≡ true =
          ground (arith, length-take (max + 1) s.content) in
        rw (more, over) (unfold check_read in rw cut)
    | inr fits ↦
        let less : leb (max + 1) (length s.content) ≡ false = ground arith in
        rw (less, fits) (check_fitting max s.content s.failure fits)
  ]

  -- With a limit below 2^63 - 1, a read that is not cancelled returns exactly what it must: the
  -- whole content when it fits, an error otherwise, and the reader is closed on every path.
  pub read_with_context-bounded :
      (max : ℕ) (r : Reader E)
      → max < max_int64
      → ((read_with_context read_done (pos max) r).0 ≡ bounded max r.stream)
        × ((e : E) → (read_with_context (ctx_done e) (pos max) r).0 ≡ err (cancelled e))
        × ((race : Race E) → (read_with_context race (pos max) r).1.closed ≡ true)
  unfolding read_with_context
  read_with_context-bounded max r h = (
    rw (succ_int64-pos max h) (check_read-bounded max r.stream),
    λ e. refl,
    elim [ ctx_done e ↦ refl | read_done ↦ refl ],
  )

  -- The limit 2^63 - 1, which the size parser accepts: `maxSize+1` wraps to a negative number, the
  -- limited reader ends at once, and every secret is returned as the empty one, with no error.
  pub read_with_context-wraps :
      (r : Reader E) → (read_with_context read_done (pos max_int64) r).0 ≡ ok []
  unfolding read_with_context check_read succ_int64 wrap_int64 read_limited
  read_with_context-wraps r = refl
