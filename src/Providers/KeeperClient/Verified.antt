-- ===== src/Providers/KeeperClient/Verified.antt =====
-- When the keeper provider verifies the keeper.
use chur.Base.{
  ℕ, ◌<◌, ◌≤◌, Bool, true, false, not, ◌||◌, ◌&&◌, Bool-cases, Option, none, some, List, [], ◌∷◌,
  if◌then◌else◌, ◌==◌, ◌≡◌, ◌≢◌, ◌⊎◌, inl, inr, refl, sym, ap, ◌∙◌, arith, Result, ok, err, ◌>>=◌,
  ◌>>◌, map_err, bind-eq-ok, map_err-eq-ok, ok-injective, ltb, subst,
}
use chur.Base.Int.{ℤ, pos, ltb_ℤ, max_int64}
use chur.Text.{Text, bytes, is_empty, text_eq}
use chur.Text.Laws.{text_eq_iff}
use chur.Tls.{Crypto, version_tls13}
use chur.ByteSize.Bounds.{parse-IsSize}
use chur.Providers.KeeperClient.{
  bad_url, bad_max_size, KeeperProvider, pool_of, server_pool, client_pair, new_provider, with_size,
  provider_from_env,
}
use chur.ByteSize

no_ca_of : (skip : Bool) (ca : Text) → skip && not (is_empty ca) ≡ false → skip ≡ true → ca ≡ []
no_ca_of skip [] h e = refl
no_ca_of true (b ∷ bs) h e = absurd (cc)
no_ca_of false (b ∷ bs) h e = absurd (cc)

on_text :
    (v : Text)
    → text_eq v (bytes "1") || text_eq v (bytes "true") ≡ true
    → (v ≡ bytes "1") ⊎ (v ≡ bytes "true")
on_text v h = elim (Bool-cases (text_eq v (bytes "1"))) [
  | inl t ↦ inl ((text_eq_iff v (bytes "1")).0 t)
  | inr t ↦ inr ((text_eq_iff v (bytes "true")).0 (rw t at h))
]

module _ {E C P : Type 0} (crypto : Crypto E C P) where
  -- How the client verifies the keeper: with the pool of the file, or with the system's.
  pub record Verifies (read_file : Text → Result E Text) (server_ca : Text) (pool : Option P)
      : Type 0 where
    pub system : server_ca ≡ [] → pool ≡ none
    pub own :
        server_ca ≢ []
        → (pem : Text) × (read_file server_ca ≡ ok pem)
          × (crypto.parse_pool pem ≡ pool)
          × (pool ≢ none)

  pool_of-ok :
      (r : Result E Text) {pool : Option P}
      → pool_of crypto r ≡ ok pool
      → (pem : Text) × (r ≡ ok pem) × (crypto.parse_pool pem ≡ pool) × (pool ≢ none)
  unfolding pool_of
  pool_of-ok (err e) h = absurd (cc)
  pool_of-ok (ok pem) h = elim (chur.Base.Option-cases (crypto.parse_pool pem)) [
    | inl n ↦ absurd (cc (rw (n, pool_of) at h))
    | inr (p, n) ↦ let q = ok-injective (rw (n, pool_of) at h) in (pem, refl, n ∙ q, λ e. cc)
  ]

  server_pool-Verifies :
      (read_file : Text → Result E Text) (server_ca : Text) {pool : Option P}
      → server_pool crypto read_file server_ca ≡ ok pool
      → Verifies read_file server_ca pool
  unfolding server_pool
  server_pool-Verifies read_file [] h = record {
    system = λ e. sym (ok-injective h);
    own = λ n. absurd (n refl);
  }
  server_pool-Verifies read_file (b ∷ bs) h = record {
    system = λ e. absurd (cc);
    own = λ n. pool_of-ok (read_file (b ∷ bs)) h;
  }

  -- What the TLS configuration of a provider has.
  pub record IsVerifying (read_file : Text → Result E Text) (skip : Bool) (server_ca : Text)
      (p : KeeperProvider C P) : Type 0 where
    pub tls13 : p.tls.min_version ≡ version_tls13
    pub skips : p.tls.insecure_skip_verify ≡ skip
    pub no_ca : skip ≡ true → server_ca ≡ []
    pub pool : Verifies read_file server_ca p.tls.root_cas

  new_provider-IsVerifying :
      (read_file : Text → Result E Text) (join_path : Text → Text → Result E Text) (url : Text)
      (skip : Bool) (cert_file key_file server_ca : Text) {p : KeeperProvider C P}
      → new_provider crypto read_file join_path url skip cert_file key_file server_ca ≡ ok p
      → IsVerifying read_file skip server_ca p × (p.max_secret_size ≡ pos 1048576)
  unfolding new_provider
  new_provider-IsVerifying read_file join_path url skip cert_file key_file server_ca h =
      elim (Bool-cases (skip && not (is_empty server_ca))) [
        | inl t ↦ absurd (cc (rw t at h))
        | inr t ↦
            let h0 = rw t at h in
            let (pool, a, h1) = bind-eq-ok (server_pool crypto read_file server_ca) _ h0 in
            let (certs, b, h2) = bind-eq-ok (client_pair crypto cert_file key_file) _ h1 in
            let (endpoint, c, h3) =
              bind-eq-ok (map_err bad_url (join_path url (bytes "/v1/secrets/get"))) _ h2 in
            rw (← ok-injective h3) (
              record {
                tls13 = refl;
                skips = refl;
                no_ca = λ e. no_ca_of skip server_ca t e;
                pool = server_pool-Verifies read_file server_ca a;
              },
              refl,
            )
      ]

  -- A positive size is kept.
  HasSize : KeeperProvider C P → KeeperProvider C P → Type 0
  HasSize q p =
      (p.tls ≡ q.tls)
      × ((p.max_secret_size ≡ q.max_secret_size)
          ⊎ ((n : ℕ) × (p.max_secret_size ≡ pos n) × (0 < n) × (n ≤ max_int64)))

  chosen-HasSize :
      (q : KeeperProvider C P) (m : ℕ)
      → m ≤ max_int64
      → HasSize q (if ltb_ℤ (pos 0) (pos m) then record q { max_secret_size = pos m } else q)
  unfolding HasSize
  chosen-HasSize q m l = elim (Bool-cases (ltb 0 m)) [
    | inr t ↦ rw t (refl, inl refl)
    | inl t ↦ rw t (refl, inr (m, refl, ground arith, l))
  ]

  with_size-HasSize :
      (q : KeeperProvider C P) (v : Text) {p : KeeperProvider C P}
      → with_size crypto q v ≡ ok p
      → HasSize q p
  unfolding with_size HasSize
  with_size-HasSize q [] h = rw (← ok-injective h) (refl, inl refl)
  with_size-HasSize q (b ∷ bs) h =
      let (n, a, h1) = bind-eq-ok (map_err bad_max_size (ByteSize.parse (b ∷ bs))) _ h in
      let (m, x, v, l) = parse-IsSize (b ∷ bs) (map_err-eq-ok bad_max_size _ a) in
      subst (HasSize q) (ok-injective (rw v at h1)) (chosen-HasSize q _ l)

  -- What a provider from the environment has: the keeper's certificate is not verified only where
  -- the variable says so and no CA is set, and it is verified with the pool of the CA that is set.
  pub record IsVerifiedClient (read_file : Text → Result E Text) (getenv : Text → Text)
      (p : KeeperProvider C P) : Type 0 where
    pub tls13 : p.tls.min_version ≡ version_tls13
    pub skipped :
        p.tls.insecure_skip_verify ≡ true
        → ((getenv (bytes "CHUR_KEEPER_INSECURE_SKIP_VERIFY") ≡ bytes "1")
            ⊎ (getenv (bytes "CHUR_KEEPER_INSECURE_SKIP_VERIFY") ≡ bytes "true"))
          × (getenv (bytes "CHUR_KEEPER_SERVER_CA") ≡ [])
    pub pool : Verifies read_file (getenv (bytes "CHUR_KEEPER_SERVER_CA")) p.tls.root_cas
    pub size : (n : ℕ) × (p.max_secret_size ≡ pos n) × (0 < n) × (n ≤ max_int64)

  size_after :
      (z y : ℤ)
      → y ≡ pos 1048576
      → (z ≡ y) ⊎ ((n : ℕ) × (z ≡ pos n) × (0 < n) × (n ≤ max_int64))
      → (n : ℕ) × (z ≡ pos n) × (0 < n) × (n ≤ max_int64)
  size_after z y e (inl q) = (1048576, q ∙ e, omega arith, omega arith)
  size_after z y e (inr x) = x

  -- A keeper provider that is made from the environment speaks TLS 1.3 and above; it skips the
  -- verification of the keeper only where CHUR_KEEPER_INSECURE_SKIP_VERIFY is 1 or true and no CA is
  -- set, and with a CA it verifies the keeper with the pool of that file; its limit is a positive
  -- int64.
  pub provider_from_env-IsVerifiedClient :
      (read_file : Text → Result E Text) (join_path : Text → Text → Result E Text)
      (getenv : Text → Text) {p : KeeperProvider C P}
      → provider_from_env crypto read_file join_path getenv ≡ ok p
      → IsVerifiedClient read_file getenv p
  unfolding provider_from_env HasSize
  provider_from_env-IsVerifiedClient read_file join_path getenv h =
      let (q, a, b) = bind-eq-ok (new_provider crypto read_file join_path _ _ _ _ _) _ h in
      let (v, m) = new_provider-IsVerifying read_file join_path _ _ _ _ _ a in
      let (t, z) = with_size-HasSize q _ b in
      record {
        tls13 = ap (λ t. t.min_version) t ∙ v.tls13;
        skipped = λ e.
            let on = sym v.skips ∙ sym (ap (λ t. t.insecure_skip_verify) t) ∙ e in
            (on_text _ on, v.no_ca on);
        pool = rw t v.pool;
        size = size_after _ _ m z;
      }
