-- ===== src/Keeper/HttpBackend/Asked.antt =====
-- What the HTTP backend asks for and what it returns.
use chur.Base.{
  All, ℕ, ◌<◌, true, not, Bool-cases, Option, none, some, [], ◌∷◌, if◌then◌else◌, ◌==◌, ==_iff, ◌≡◌,
  ◌≢◌, ◌↔◌, inl, inr, refl, ap, arith, Result, ok, err, bind-eq-ok, map_err-eq-ok, ok-injective,
  subst,
}
use chur.Base.Int.{ℤ, pos, ltb_ℤ, max_int64}
use chur.Text.{Text, bytes, is_empty, text_eq}
use chur.Text.Laws.{text_eq_iff}
use chur.Url.Query.{Lacks, cut_query, query_value, query_value-ref}
use chur.Validate.{Reason, validate_keeper_ref}
use chur.Validate.Paths.{IsPath, IsAbsolute, validate_keeper_ref_iff}
use chur.ReadUtil.Bounded.{IsContent}
use chur.Http.{HttpResponse, Http, unread, call}
use chur.Http.Body.{read_body-IsContent, IsContent-read_body, call-ok, call-refusal}
use chur.Keeper.HttpBackend.{
  HttpBackend, not_fetched, trim_slashes, is_https, token_of, sized_backend, new_http_backend,
  backend_call, backend_secret, valid_keeper_ref, get_http_secret,
}

positive_timeout :
    (t : ℤ) → ltb_ℤ (pos 0) (if not (ltb_ℤ (pos 0) t) then pos 30000000000 else t) ≡ true
positive_timeout t = elim (Bool-cases (ltb_ℤ (pos 0) t)) [ inl h ↦ rw h h | inr h ↦ rw h refl ]

module _ {E : Type 0} where
  -- The whole body of a response with the status 200 to the backend's request for a valid ref.
  pub record IsFetched (http : Http E) (b : HttpBackend) (max : ℕ) (ref content : Text)
      : Type 0 where
    pub valid : (ref ≢ []) × (¬ IsAbsolute ref) × IsPath ref
    pub response : HttpResponse E
    pub created : http.refusal (backend_call b ref) ≡ none
    pub sent : http.send (backend_call b ref) ≡ ok response
    pub status_ok : response.status ≡ 200
    pub whole : IsContent max response.body content

  valid_keeper_ref-ok :
      (o : Option Reason) {u : Unit {0}} → valid_keeper_ref {E = E} o ≡ ok u → o ≡ none
  unfolding valid_keeper_ref
  valid_keeper_ref-ok none h = refl
  valid_keeper_ref-ok (some r) h = cc

  backend_secret-ok :
      (max : ℕ) (r : HttpResponse E) {content : Text}
      → max < max_int64
      → backend_secret (pos max) r ≡ ok content
      → (r.status ≡ 200) × IsContent max r.body content
  unfolding backend_secret
  backend_secret-ok max r m h = elim (Bool-cases (r.status == 200)) [
    | inl t ↦ (
      (==_iff r.status 200).0 t,
      read_body-IsContent max r.body m (map_err-eq-ok unread _ (rw t at h)),
    )
    | inr t ↦ absurd (cc (rw t at h))
  ]

  -- The HTTP backend, with a limit below 2^63 - 1, returns a secret exactly if its ref is a relative
  -- path with no `..`, the GET for that ref could be created and sent and got a response with the
  -- status 200, and the secret is the whole body, read without an error and within the limit.
  pub get_http_secret_iff :
      (http : Http E) (b : HttpBackend) (max : ℕ) (ref : Text) {content : Text}
      → b.max_size ≡ pos max
      → max < max_int64
      → (get_http_secret http b ref ≡ ok content) ↔ IsFetched http b max ref content
  unfolding get_http_secret valid_keeper_ref backend_secret call
  get_http_secret_iff http b max ref e m = (
    λ h.
        let (u, v, h1) = bind-eq-ok (valid_keeper_ref (validate_keeper_ref ref)) _ h in
        let (r, a, c) =
          bind-eq-ok (call http (backend_call b ref)) _ (map_err-eq-ok not_fetched _ h1) in
        let (s, w) = backend_secret-ok max r m (rw e at c) in
        record {
          valid = (validate_keeper_ref_iff ref).0 (valid_keeper_ref-ok _ v);
          response = r;
          created = call-refusal http _ a;
          sent = call-ok http _ a;
          status_ok = s;
          whole = w;
        },
    λ k.
        let body = IsContent-read_body max k.response.body m k.whole in
        rw ((validate_keeper_ref_iff ref).1 k.valid, k.created, k.sent, k.status_ok, e, body) refl,
  )

  -- What New guarantees of a backend.
  pub record IsHttps (parse_url : Text → Result E (Text × Text)) (base_url : Text) (b : HttpBackend)
      : Type 0 where
    pub host : Text
    pub https : (parse_url base_url ≡ ok (bytes "https", host)) × (host ≢ [])
    pub limits : (ltb_ℤ (pos 0) b.max_size ≡ true) × (ltb_ℤ (pos 0) b.timeout ≡ true)
    pub url : b.base_url ≡ trim_slashes base_url

  is_https-host :
      (r : Result E (Text × Text))
      → is_https r ≡ true
      → (host : Text) × (r ≡ ok (bytes "https", host)) × (host ≢ [])
  unfolding is_https
  is_https-host (err e) h = absurd (cc)
  is_https-host (ok (scheme, [])) h = absurd (ground arith)
  is_https-host (ok (scheme, b ∷ bs)) h =
      let t : text_eq scheme (bytes "https") ≡ true = ground arith in
      (b ∷ bs, ap (λ s. ok (s, b ∷ bs)) ((text_eq_iff scheme (bytes "https")).0 t), λ q. cc)

  sized_backend-IsHttps :
      (parse_url : Text → Result E (Text × Text)) (base_url token : Text) (timeout max_size : ℤ)
      (host : Text) {b : HttpBackend}
      → parse_url base_url ≡ ok (bytes "https", host)
      → host ≢ []
      → sized_backend {E = E} base_url token timeout max_size ≡ ok b
      → IsHttps parse_url base_url b
  unfolding sized_backend
  sized_backend-IsHttps parse_url base_url token timeout max_size host p n h =
      elim (Bool-cases (ltb_ℤ (pos 0) max_size)) [
        | inr m ↦ absurd (cc (rw m at h))
        | inl m ↦ subst (IsHttps parse_url base_url) (ok-injective (rw m at h)) (record {
          host = host;
          https = (p, n);
          limits = (m, positive_timeout timeout);
          url = refl;
        })
      ]

  -- A backend that New returns has an absolute https URL as its base, without trailing slashes, a
  -- positive limit and a positive timeout.
  pub new_http_backend-IsHttps :
      (parse_url : Text → Result E (Text × Text)) (read_file : Text → Result E Text)
      (base_url token_file : Text) (timeout max_size : ℤ) {b : HttpBackend}
      → new_http_backend parse_url read_file base_url token_file timeout max_size ≡ ok b
      → IsHttps parse_url base_url b
  unfolding new_http_backend
  new_http_backend-IsHttps parse_url read_file base_url token_file timeout max_size h =
      elim (Bool-cases (is_empty base_url)) [
        | inl t ↦ absurd (cc (rw t at h))
        | inr t ↦ elim (Bool-cases (is_https (parse_url base_url))) [
          | inr k ↦ absurd (cc (rw (t, k) at h))
          | inl k ↦
              let (host, p, n) = is_https-host (parse_url base_url) k in
              let (token, a, c) = bind-eq-ok (token_of read_file token_file) _ (rw (t, k) at h) in
              sized_backend-IsHttps parse_url base_url token timeout max_size host p n c
        ]
      ]

-- With a base URL that has no query and no fragment, the URL of the request for a ref of bytes is
-- the base URL before its query, and a server that reads the query gets exactly the ref as the value
-- of `ref`.
pub backend_call-query_value :
    (b : HttpBackend) (ref : Text)
    → Lacks b'?' b.base_url
    → Lacks b'#' b.base_url
    → All (λ c. c < 256) ref
    → ((cut_query (backend_call b ref).url).0 ≡ b.base_url)
      × (query_value (bytes "ref") (backend_call b ref).url ≡ some ref)
unfolding backend_call
backend_call-query_value b ref n f h = query_value-ref b.base_url ref n f h
