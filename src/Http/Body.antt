-- ===== src/Http/Body.antt =====
-- A client that reads a body reads the whole of it.
use chur.Base.{
  ℕ, ◌<◌, Option, none, some, ◌≡◌, refl, sym, ap, ◌∙◌, Result, ok, err, check, map_err, bind-eq-ok,
  check-eq-ok, map_err-eq-ok,
}
use chur.Base.Int.{pos, max_int64}
use chur.Text.{Text}
use chur.Io.{Stream}
use chur.ReadUtil.{read_with_context}
use chur.ReadUtil.Bounded.{
  bounded, IsContent, bounded-IsContent, IsContent-bounded, read_with_context-bounded,
}
use chur.Http.{HttpCall, HttpResponse, Http, not_sent, read_body, refused, call}

module _ {E : Type 0} where
  pub read_body-bounded :
      (max : ℕ) (s : Stream E) → max < max_int64 → read_body (pos max) s ≡ bounded max s
  unfolding read_body read_with_context
  read_body-bounded max s m =
      (read_with_context-bounded max (record { stream = s; closed = chur.Base.false }) m).0

  pub read_body-IsContent :
      (max : ℕ) (s : Stream E) {content : Text}
      → max < max_int64
      → read_body (pos max) s ≡ ok content
      → IsContent max s content
  read_body-IsContent max s m h = bounded-IsContent max s (sym (read_body-bounded max s m) ∙ h)

  pub IsContent-read_body :
      (max : ℕ) (s : Stream E) {content : Text}
      → max < max_int64
      → IsContent max s content
      → read_body (pos max) s ≡ ok content
  IsContent-read_body max s m k = read_body-bounded max s m ∙ IsContent-bounded max s k

  refused-none : (o : Option E) → refused o ≡ none → o ≡ none
  refused-none none h = refl
  refused-none (some e) h = cc

  -- A request that was sent had been created.
  pub call-refusal :
      (http : Http E) (c : HttpCall) {r : HttpResponse E}
      → call http c ≡ ok r
      → http.refusal c ≡ none
  unfolding call
  call-refusal http c h =
      let (u, a, b) = bind-eq-ok (check (refused (http.refusal c))) _ h in
      refused-none (http.refusal c) (check-eq-ok (refused (http.refusal c)) a)

  pub call-ok :
      (http : Http E) (c : HttpCall) {r : HttpResponse E} → call http c ≡ ok r → http.send c ≡ ok r
  unfolding call
  call-ok http c h =
      let (u, a, b) = bind-eq-ok (check (refused (http.refusal c))) _ h in
      map_err-eq-ok not_sent (http.send c) b
