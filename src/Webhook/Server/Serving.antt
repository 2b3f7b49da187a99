-- ===== src/Webhook/Server/Serving.antt =====
-- How the admission server serves an HTTP request.
use chur.Base.{
  ℕ, ◌+◌, ◌-◌, Bool, true, false, not, Option, none, some, ◌≡◌, refl, ◌∙◌, ap, inl, inr, arith,
  if◌then◌else◌, Bool-cases,
}
use chur.Text.Laws.{text_eq_iff}
use chur.Text.{Text, bytes, text_eq}
use chur.Webhook.Config.{Config}
use chur.Webhook.Server.{
  Request, Response, Codecs, mutate, mutate_with_metrics, answered, HttpState, serve_review,
  serve_in_slot, serve_http,
}
use chur.Webhook.Server.Review.{IsConsistent, uid_of, mutate-IsConsistent}

-- What a request with a response shows: it was a POST that got a slot, its body decoded to a
-- review, and the response is the consistent one to that review.
pub record IsAnswered (codecs : Codecs) (cfg : Config) (s : HttpState) (got_slot : Bool)
    (method : Text) (body : Option (Option Request)) (r : Response) : Type 0 where
  pub review : Option Request
  pub post : method ≡ bytes "POST"
  pub slot : got_slot ≡ true
  pub decoded : body ≡ some review
  pub of_review : r ≡ (mutate codecs cfg review s.log).0
  pub consistent : IsConsistent r × (r.uid ≡ uid_of review)

slots_back :
    (codecs : Codecs) (cfg : Config) (s : HttpState) (body : Option (Option Request))
    → ((serve_in_slot codecs cfg s body).1.taken ≡ s.taken)
      × ((serve_in_slot codecs cfg s body).1.in_flight ≡ s.in_flight)
unfolding serve_in_slot
slots_back codecs cfg s body = (omega arith, omega arith)

-- Every path of ServeHTTP leaves as many slots taken and as many requests on the gauge as it found.
pub serve_http-slots :
    (codecs : Codecs) (cfg : Config) (got_slot : Bool) (s : HttpState) (method : Text)
    (body : Option (Option Request))
    → ((serve_http codecs cfg got_slot s method body).1.taken ≡ s.taken)
      × ((serve_http codecs cfg got_slot s method body).1.in_flight ≡ s.in_flight)
unfolding serve_http
serve_http-slots codecs cfg got_slot s method body =
    elim (Bool-cases (text_eq method (bytes "POST"))) [
      | inr m ↦ rw m (refl, refl)
      | inl m ↦ rw m (elim (Bool-cases got_slot) [
        | inr g ↦ rw g (refl, refl)
        | inl g ↦ rw g (slots_back codecs cfg s body)
      ])
    ]

answered-injective : (a b : Response) → answered a ≡ answered b → a ≡ b
answered-injective a b h = cc

in_slot-IsAnswered :
    (codecs : Codecs) (cfg : Config) (s : HttpState) (method : Text)
    (body : Option (Option Request)) (r : Response)
    → text_eq method (bytes "POST") ≡ true
    → (serve_in_slot codecs cfg s body).0 ≡ answered r
    → IsAnswered codecs cfg s true method body r
unfolding serve_in_slot serve_review mutate_with_metrics
in_slot-IsAnswered codecs cfg s method none r m h = absurd (cc)
in_slot-IsAnswered codecs cfg s method (some review) r m h =
    let e = answered-injective (mutate codecs cfg review s.log).0 r h in
    record {
      review = review;
      post = (text_eq_iff method (bytes "POST")).0 m;
      slot = refl;
      decoded = refl;
      of_review = chur.Base.sym e;
      consistent = rw (← e) (mutate-IsConsistent codecs cfg review s.log);
    }

-- The server answers with a response only to a POST that got a slot and whose body decodes to a
-- review; the response is then the one to that review, with its uid, and consistent.
pub serve_http-IsAnswered :
    (codecs : Codecs) (cfg : Config) (got_slot : Bool) (s : HttpState) (method : Text)
    (body : Option (Option Request)) (r : Response)
    → (serve_http codecs cfg got_slot s method body).0 ≡ answered r
    → IsAnswered codecs cfg s got_slot method body r
unfolding serve_http
serve_http-IsAnswered codecs cfg false s method body r h =
    elim (Bool-cases (text_eq method (bytes "POST"))) [
      | inl m ↦ absurd (cc (rw m at h))
      | inr m ↦ absurd (cc (rw m at h))
    ]
serve_http-IsAnswered codecs cfg true s method body r h =
    elim (Bool-cases (text_eq method (bytes "POST"))) [
      | inl m ↦ in_slot-IsAnswered codecs cfg s method body r m (rw m at h)
      | inr m ↦ absurd (cc (rw m at h))
    ]
