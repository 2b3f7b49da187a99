-- ===== src/Keeper/Client/RoundTrip.antt =====
-- The keeper provider of chur-init together with the keeper.
use chur.Base.{
  ℕ, ◌<◌, ◌≤◌, true, false, Bool-cases, Option, Option-cases, none, some, [], ◌≡◌, ◌≢◌, ◌↔◌, inl,
  inr, refl, sym, ap, ◌∙◌, arith, Result, ok, err, ok-injective, length,
}
use mathlib.Core.Option.{some_inj}
use chur.Base.Int.{ℤ, pos, ltb_ℤ, max_int64}
use chur.Text.{Text, bytes, is_empty, text_eq}
use chur.Validate.{validate_keeper_ref}
use chur.Validate.Paths.{IsPath, IsAbsolute}
use chur.ReadUtil.Bounded.{IsContent-bounded}
use chur.Http.{Http, read_body, call}
use chur.Http.Body.{read_body-bounded}
use chur.Providers.KeeperClient.{KeeperProvider, secret_call, secret_of, get_keeper_secret}
use chur.Providers.KeeperClient.Secret.{get_keeper_secret-IsReceived}
use chur.Keeper.Handler.{
  HttpRequest, Reply, failure, secret, Shared, acquire, released, reply_backend, reply_ref,
  handle_get_secret,
}
use chur.Keeper.Handler.Answers.{IsServed, handle_get_secret_iff}
use chur.Keeper.Client.{response_of, request_of, keeper_http}

-- A reply whose status is 200 is a secret.
IsSecretAt200 : Reply → Type 0
IsSecretAt200 (failure code msg) = code ≢ 200
IsSecretAt200 (secret content) = Unit

module _ {E : Type 0} (decode : Text → Option Text) (backend : Text → Result E Text)
    (max_size : ℤ) where
  reply_backend-IsSecretAt200 :
      (s : Shared) (o : Result E Text) → IsSecretAt200 (reply_backend max_size s o).0
  unfolding reply_backend IsSecretAt200
  reply_backend-IsSecretAt200 s (err e) = λ q. omega (arith, q)
  reply_backend-IsSecretAt200 s (ok content) =
      elim (Bool-cases (ltb_ℤ max_size (pos (length content)))) [
        | inl t ↦ rw t (λ q. omega (arith, q))
        | inr t ↦ rw t tt
      ]

  reply_ref-IsSecretAt200 :
      (s : Shared) (o : Option Text) → IsSecretAt200 (reply_ref backend max_size s o).0
  unfolding reply_ref IsSecretAt200
  reply_ref-IsSecretAt200 s none = λ q. omega (arith, q)
  reply_ref-IsSecretAt200 s (some ref) = elim (Bool-cases (is_empty ref)) [
    | inl t ↦ rw t (λ q. omega (arith, q))
    | inr t ↦ rw t (elim (Option-cases (validate_keeper_ref ref)) [
      | inl n ↦ rw n (reply_backend-IsSecretAt200 s (backend ref))
      | inr (e, n) ↦ rw n (λ q. omega (arith, q))
    ])
  ]

  handle-IsSecretAt200 :
      (s : Shared) (r : HttpRequest)
      → IsSecretAt200 (handle_get_secret decode backend max_size true s r).0
  unfolding handle_get_secret released IsSecretAt200
  handle-IsSecretAt200 s r = elim (Bool-cases (text_eq r.method (bytes "POST"))) [
    | inr m ↦ rw m (λ q. omega (arith, q))
    | inl m ↦ rw m (elim (Bool-cases (text_eq r.path (bytes "/v1/secrets/get"))) [
      | inr p ↦ rw p (λ q. omega (arith, q))
      | inl p ↦ rw p (reply_ref-IsSecretAt200 (acquire s) (decode r.body))
    ])
  ]

  response_of-secret :
      (encode_error : Text → Text) (reply : Reply)
      → IsSecretAt200 reply
      → (response_of {E = E} encode_error reply).status ≡ 200
      → reply ≡ secret (response_of {E = E} encode_error reply).body.content
  unfolding response_of IsSecretAt200
  response_of-secret encode_error (failure code msg) n h = absurd (n h)
  response_of-secret encode_error (secret content) n h = refl

-- The length of a text is at most a limit.
abbrev pub Fits : ℤ → Text → Type 0
Fits max content = ltb_ℤ max (pos (length content)) ≡ false

module _ {E C P : Type 0} (path_of encode_error encode : Text → Text) (decode : Text → Option Text)
    (backend : Text → Result E Text) (max_size : ℤ) (s : Shared) (p : KeeperProvider C P)
    (max : ℕ) where
  abbrev pub http : Http E
  http = keeper_http path_of encode_error decode backend max_size true s

  abbrev answer : Text → Reply
  answer ref =
      (handle_get_secret decode backend max_size true s
        (request_of path_of (secret_call encode p.url ref))).0

  fetched-IsServed :
      (ref : Text) {content : Text}
      → p.max_secret_size ≡ pos max
      → max < max_int64
      → get_keeper_secret encode http p ref ≡ ok content
      → IsServed decode backend max_size true
          (request_of path_of (secret_call encode p.url ref))
          content
        × (length content ≤ max)
  unfolding keeper_http
  fetched-IsServed ref {content} e m h =
      let k = get_keeper_secret-IsReceived encode http p max ref e m h in
      let q : response_of encode_error (answer ref) ≡ k.response = ok-injective k.sent in
      let is_secret =
        response_of-secret decode backend max_size encode_error (answer ref)
          (handle-IsSecretAt200 decode backend max_size s _) (rw q k.status_ok) in
      let same = ap (λ r. r.body.content) q ∙ sym k.whole.whole in
      (
        (handle_get_secret_iff decode backend max_size true s _ content).0
            (is_secret ∙ ap secret same),
        k.whole.fits,
      )

  -- The secrets that the keeper hands out for a ref and that fit the client.
  pub record IsAvailable (ref content : Text) : Type 0 where
    pub valid : (ref ≢ []) × (¬ IsAbsolute ref) × IsPath ref
    pub found : backend ref ≡ ok content
    pub fits : Fits max_size content × (length content ≤ max)

  served-IsAvailable :
      (ref content : Text)
      → decode (encode ref) ≡ some ref
      → IsServed decode backend max_size true
          (request_of path_of (secret_call encode p.url ref))
          content
      → length content ≤ max
      → IsAvailable ref content
  unfolding request_of secret_call
  served-IsAvailable ref content d k l =
      let q : k.ref ≡ ref = some_inj.0 (sym k.decoded ∙ d) in
      record { valid = rw q at k.valid; found = rw q at k.found; fits = (k.fits, l) }

  answer-IsAvailable :
      (ref content : Text)
      → path_of p.url ≡ bytes "/v1/secrets/get"
      → decode (encode ref) ≡ some ref
      → IsAvailable ref content
      → answer ref ≡ secret content
  unfolding request_of secret_call
  answer-IsAvailable ref content u d k =
      (handle_get_secret_iff decode backend max_size true s _ content).1 (record {
        ref = ref;
        post = refl;
        at_path = u;
        slot = refl;
        decoded = d;
        valid = k.valid;
        found = k.found;
        fits = k.fits.0;
      })

  fetched-IsAvailable :
      (ref content : Text)
      → p.max_secret_size ≡ pos max
      → max < max_int64
      → path_of p.url ≡ bytes "/v1/secrets/get"
      → decode (encode ref) ≡ some ref
      → IsAvailable ref content
      → get_keeper_secret encode http p ref ≡ ok content
  unfolding get_keeper_secret keeper_http call response_of secret_of
  fetched-IsAvailable ref content e m u d k =
      let read : read_body {E = E} (pos max) (record { content = content; failure = none })
          ≡ ok content =
        read_body-bounded max _ m
        ∙ IsContent-bounded max _ (record { whole = refl; no_failure = refl; fits = k.fits.1 }) in
      rw (answer-IsAvailable ref content u d k, e, read) refl

  -- With a decoder that reads what the client encodes, a URL with the handler's path, a free slot
  -- and a client limit below 2^63 - 1, the keeper provider returns a secret for a ref exactly if the
  -- ref is valid, the keeper's backend has that secret for it, and it fits both limits.
  pub get_keeper_secret_iff :
      (ref content : Text)
      → p.max_secret_size ≡ pos max
      → max < max_int64
      → path_of p.url ≡ bytes "/v1/secrets/get"
      → decode (encode ref) ≡ some ref
      → (get_keeper_secret encode http p ref ≡ ok content) ↔ IsAvailable ref content
  get_keeper_secret_iff ref content e m u d = (
    λ h. let (k, l) = fetched-IsServed ref e m h in served-IsAvailable ref content d k l,
    fetched-IsAvailable ref content e m u d,
  )
