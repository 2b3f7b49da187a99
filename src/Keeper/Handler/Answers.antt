-- ===== src/Keeper/Handler/Answers.antt =====
-- What the keeper answers, and that it gives every slot back.
use chur.Base.{
  Bool, true, false, not, Option, none, some, [], ◌∷◌, ◌≡◌, ◌≢◌, ◌↔◌, refl, ap, inl, inr, arith,
  if◌then◌else◌, Bool-cases, Option-cases, Result, ok, err, length,
}
use chur.Base.Int.{ℤ, pos, ltb_ℤ}
use chur.Text.Laws.{text_eq_iff}
use chur.Text.{Text, bytes, is_empty, text_eq}
use chur.Validate.{validate_keeper_ref}
use chur.Validate.Paths.{IsPath, IsAbsolute, validate_keeper_ref_iff}
use chur.Keeper.Handler.{
  HttpRequest, failure, secret, Shared, acquire, reply_backend, reply_ref, released,
  handle_get_secret,
}

secret-injective : (a b : Text) → secret a ≡ secret b → a ≡ b
secret-injective a b h = cc

module _ {ℓ} {E : Type ℓ} (decode : Text → Option Text) (backend : Text → Result E Text)
    (max_size : ℤ) where
  reply_backend-slots :
      (s : Shared) (o : Result E Text)
      → ((reply_backend max_size s o).1.taken ≡ s.taken)
        × ((reply_backend max_size s o).1.in_flight ≡ s.in_flight)
  unfolding reply_backend
  reply_backend-slots s (err e) = (refl, refl)
  reply_backend-slots s (ok content) = elim (Bool-cases (ltb_ℤ max_size (pos (length content)))) [
    | inl t ↦ rw t (refl, refl)
    | inr t ↦ rw t (refl, refl)
  ]

  reply_ref-slots :
      (s : Shared) (o : Option Text)
      → ((reply_ref backend max_size s o).1.taken ≡ s.taken)
        × ((reply_ref backend max_size s o).1.in_flight ≡ s.in_flight)
  unfolding reply_ref
  reply_ref-slots s none = (refl, refl)
  reply_ref-slots s (some ref) = elim (Bool-cases (is_empty ref)) [
    | inl t ↦ rw t (refl, refl)
    | inr t ↦ rw t (elim (Option-cases (validate_keeper_ref ref)) [
      | inl n ↦ rw n (reply_backend-slots s (backend ref))
      | inr (e, n) ↦ rw n (refl, refl)
    ])
  ]

  slots_back :
      (got_slot : Bool) (s : Shared) (o : Option Text)
      → (let r =
            if not got_slot
            then (failure 503 (bytes "server busy"), s)
            else released (reply_ref backend max_size (acquire s) o) in
          (r.1.taken ≡ s.taken) × (r.1.in_flight ≡ s.in_flight))
  unfolding released
  slots_back false s o = (refl, refl)
  slots_back true s o =
      let (a, b) = reply_ref-slots (acquire s) o in (omega (arith, a), omega (arith, b))

  -- Whatever the request, the decoder and the backend do, the handler leaves as many slots taken
  -- and as many requests on the gauge as it found.
  pub handle_get_secret-slots :
      (got_slot : Bool) (s : Shared) (r : HttpRequest)
      → ((handle_get_secret decode backend max_size got_slot s r).1.taken ≡ s.taken)
        × ((handle_get_secret decode backend max_size got_slot s r).1.in_flight ≡ s.in_flight)
  unfolding handle_get_secret released
  handle_get_secret-slots got_slot s r = elim (Bool-cases (text_eq r.method (bytes "POST"))) [
    | inr m ↦ rw m (refl, refl)
    | inl m ↦ rw m (elim (Bool-cases (text_eq r.path (bytes "/v1/secrets/get"))) [
      | inr p ↦ rw p (refl, refl)
      | inl p ↦ rw p (slots_back got_slot s (decode r.body))
    ])
  ]

  -- The requests that are answered with a secret.
  pub record IsServed (got_slot : Bool) (r : HttpRequest) (content : Text) : Type ℓ where
    pub ref : Text
    pub post : r.method ≡ bytes "POST"
    pub at_path : r.path ≡ bytes "/v1/secrets/get"
    pub slot : got_slot ≡ true
    pub decoded : decode r.body ≡ some ref
    pub valid : (ref ≢ []) × (¬ IsAbsolute ref) × IsPath ref
    pub found : backend ref ≡ ok content
    pub fits : ltb_ℤ max_size (pos (length content)) ≡ false

  reply_backend-secret :
      (s : Shared) (o : Result E Text) (content : Text)
      → (reply_backend max_size s o).0 ≡ secret content
      → (o ≡ ok content) × (ltb_ℤ max_size (pos (length content)) ≡ false)
  unfolding reply_backend
  reply_backend-secret s (err e) content h = absurd (cc)
  reply_backend-secret s (ok c) content h = elim (Bool-cases (ltb_ℤ max_size (pos (length c)))) [
    | inl t ↦ absurd (cc (rw t at h))
    | inr t ↦ let q : c ≡ content = secret-injective c content (rw t at h) in (ap ok q, rw q at t)
  ]

  reply_ref-secret :
      (s : Shared) (ref content : Text)
      → (reply_ref backend max_size s (some ref)).0 ≡ secret content
      → ((ref ≢ []) × (¬ IsAbsolute ref) × IsPath ref)
        × (backend ref ≡ ok content)
        × (ltb_ℤ max_size (pos (length content)) ≡ false)
  unfolding reply_ref
  reply_ref-secret s ref content h = elim (Bool-cases (is_empty ref)) [
    | inl t ↦ absurd (cc (rw t at h))
    | inr t ↦ elim (Option-cases (validate_keeper_ref ref)) [
      | inl n ↦
          let (f, g) = reply_backend-secret s (backend ref) content (rw (t, n) at h) in
          ((validate_keeper_ref_iff ref).0 n, f, g)
      | inr (e, n) ↦ absurd (cc (rw (t, n) at h))
    ]
  ]

  -- A request that was answered with a secret is one that is served.
  handle_get_secret-IsServed :
      (got_slot : Bool) (s : Shared) (r : HttpRequest) (content : Text)
      → (handle_get_secret decode backend max_size got_slot s r).0 ≡ secret content
      → IsServed got_slot r content
  unfolding handle_get_secret released
  handle_get_secret-IsServed false s r content h = absurd (ground arith)
  handle_get_secret-IsServed true s r content h =
      elim (Bool-cases (text_eq r.method (bytes "POST"))) [
        | inr m ↦ absurd (cc (rw m at h))
        | inl m ↦ elim (Bool-cases (text_eq r.path (bytes "/v1/secrets/get"))) [
          | inr p ↦ absurd (cc (rw (m, p) at h))
          | inl p ↦ elim (Option-cases (decode r.body)) [
            | inl d ↦ absurd (cc (rw (m, p, d) at h))
            | inr (ref, d) ↦
                let (v, f, g) = reply_ref-secret (acquire s) ref content (rw (m, p, d) at h) in
                record {
                  ref = ref;
                  post = (text_eq_iff r.method (bytes "POST")).0 m;
                  at_path = (text_eq_iff r.path (bytes "/v1/secrets/get")).0 p;
                  slot = refl;
                  decoded = d;
                  valid = v;
                  found = f;
                  fits = g;
                }
          ]
        ]
      ]

  secret-reply_ref :
      (s : Shared) (ref content : Text)
      → (ref ≢ []) × (¬ IsAbsolute ref) × IsPath ref
      → backend ref ≡ ok content
      → ltb_ℤ max_size (pos (length content)) ≡ false
      → (reply_ref backend max_size s (some ref)).0 ≡ secret content
  unfolding reply_ref reply_backend
  secret-reply_ref s [] content v f g = absurd (v.0 refl)
  secret-reply_ref s (b ∷ bs) content v f g = rw ((validate_keeper_ref_iff (b ∷ bs)).1 v, f, g) refl

  IsServed-answered :
      (got_slot : Bool) (s : Shared) (r : HttpRequest) (content : Text)
      → IsServed got_slot r content
      → (handle_get_secret decode backend max_size got_slot s r).0 ≡ secret content
  unfolding handle_get_secret released
  IsServed-answered got_slot s r content k =
      rw
        (
          (text_eq_iff r.method (bytes "POST")).1 k.post,
          (text_eq_iff r.path (bytes "/v1/secrets/get")).1 k.at_path,
          k.slot,
          k.decoded,
        )
        (secret-reply_ref (acquire s) k.ref content k.valid k.found k.fits)

  -- The keeper answers with a secret exactly to a POST to /v1/secrets/get that got a slot and whose
  -- body decodes to a valid ref for which the backend returned that secret, not larger than the
  -- limit.
  pub handle_get_secret_iff :
      (got_slot : Bool) (s : Shared) (r : HttpRequest) (content : Text)
      → ((handle_get_secret decode backend max_size got_slot s r).0 ≡ secret content)
        ↔ IsServed got_slot r content
  handle_get_secret_iff got_slot s r content =
      (handle_get_secret-IsServed got_slot s r content, IsServed-answered got_slot s r content)
