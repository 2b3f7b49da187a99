-- ===== src/Tls/Secure.antt =====
-- What every TLS configuration of the servers has.
use chur.Base.{
  Option, none, some, [], ◌∷◌, ◌≡◌, ◌≢◌, ◌⊎◌, refl, ap, ◌∙◌, inl, inr, if◌then◌else◌, Bool-cases,
  Result, ok, err, bind-eq-ok, ok-injective,
}
use chur.Text.{Text, bytes, is_empty, text_eq}
use chur.Text.Laws.{text_eq_iff}
use chur.Tls.{
  TlsConfig, no_client_cert, require_and_verify_client_cert, version_tls13, empty_client_ca, Crypto,
  client_ca_pool, with_client_ca, load_pair, server_tls_config, verified_config, webhook_tls_config,
}

module _ {E C P : Type 0} (crypto : Crypto E C P) where
  -- A client must show a certificate that the pool of this CA verifies.
  pub record AsksClients (client_ca : Text) (c : TlsConfig C P) : Type 0 where
    pub pool : P
    pub parsed : crypto.parse_pool client_ca ≡ some pool
    pub verified : c.client_auth ≡ require_and_verify_client_cert
    pub by_pool : c.client_cas ≡ some pool

  -- No client has to show a certificate.
  pub record AsksNone (c : TlsConfig C P) : Type 0 where
    pub auth : c.client_auth ≡ no_client_cert
    pub no_pool : c.client_cas ≡ none

  client_ca_pool-ok :
      (pem : Text) (o : Option P) {pool : P}
      → crypto.parse_pool pem ≡ o
      → client_ca_pool crypto pem ≡ ok pool
      → crypto.parse_pool pem ≡ some pool
  unfolding client_ca_pool
  client_ca_pool-ok pem none e h = cc (rw (e, client_ca_pool) at h)
  client_ca_pool-ok pem (some p) e h = e ∙ ap some (ok-injective (rw (e, client_ca_pool) at h))

  -- What ServerTLSConfig returns: TLS 1.3, the loaded pair, and the client's part.
  pub record IsServerConfig (client_ca cert_file key_file : Text) (c : TlsConfig C P) : Type 0 where
    pub tls13 : c.min_version ≡ version_tls13
    pub cert : C
    pub loaded : crypto.load_key_pair cert_file key_file ≡ ok cert
    pub only_cert : c.certificates ≡ cert ∷ []
    pub clients : ((client_ca ≢ []) × AsksClients client_ca c) ⊎ ((client_ca ≡ []) × AsksNone c)

  load_pair-ok :
      (cert_file key_file : Text) (r : Result E C) {cert : C}
      → crypto.load_key_pair cert_file key_file ≡ r
      → load_pair crypto cert_file key_file ≡ ok cert
      → crypto.load_key_pair cert_file key_file ≡ ok cert
  unfolding load_pair
  load_pair-ok cert_file key_file (ok c) e h = e ∙ ap ok (ok-injective (rw (e, load_pair) at h))
  load_pair-ok cert_file key_file (err x) e h = cc (rw (e, load_pair) at h)

  with_client_ca-ok :
      (cert : C) (client_ca cert_file key_file : Text) {c : TlsConfig C P}
      → crypto.load_key_pair cert_file key_file ≡ ok cert
      → with_client_ca crypto cert client_ca ≡ ok c
      → IsServerConfig client_ca cert_file key_file c
  unfolding with_client_ca
  with_client_ca-ok cert [] cert_file key_file l h = rw (← ok-injective h) (record {
    tls13 = refl;
    cert = cert;
    loaded = l;
    only_cert = refl;
    clients = inr (refl, record { auth = refl; no_pool = refl });
  })
  with_client_ca-ok cert (b ∷ bs) cert_file key_file l h =
      let (pool, p, e) = bind-eq-ok (client_ca_pool crypto (b ∷ bs)) _ h in
      rw (← ok-injective e) (record {
        tls13 = refl;
        cert = cert;
        loaded = l;
        only_cert = refl;
        clients = inl (
          (λ q. cc),
          record {
            pool = pool;
            parsed = client_ca_pool-ok (b ∷ bs) _ refl p;
            verified = refl;
            by_pool = refl;
          },
        );
      })

  -- A configuration of ServerTLSConfig is for TLS 1.3 and above and holds the pair of the two
  -- files; if the CA is not empty, clients must show a certificate that its pool verifies, and if
  -- it is empty, they need none.
  pub server_tls_config-IsServerConfig :
      (client_ca cert_file key_file : Text) {c : TlsConfig C P}
      → server_tls_config crypto client_ca cert_file key_file ≡ ok c
      → IsServerConfig client_ca cert_file key_file c
  unfolding server_tls_config
  server_tls_config-IsServerConfig client_ca cert_file key_file h =
      let (cert, l, e) = bind-eq-ok (load_pair crypto cert_file key_file) _ h in
      with_client_ca-ok cert client_ca cert_file key_file (load_pair-ok cert_file key_file _ refl l)
        e

  verified_config-ok :
      (client_ca : Text) {c : TlsConfig C P}
      → (if is_empty client_ca then err empty_client_ca else verified_config crypto client_ca)
        ≡ ok c
      → (c.min_version ≡ version_tls13) × (client_ca ≢ []) × AsksClients client_ca c
  unfolding verified_config
  verified_config-ok [] h = absurd (cc)
  verified_config-ok (b ∷ bs) h =
      let (pool, p, e) = bind-eq-ok (client_ca_pool crypto (b ∷ bs)) _ h in
      rw (← ok-injective e) (
        refl,
        (λ q. cc),
        record {
          pool = pool;
          parsed = client_ca_pool-ok (b ∷ bs) _ refl p;
          verified = refl;
          by_pool = refl;
        },
      )

  -- A configuration of the webhook is for TLS 1.3 and above; in the mode mtls, and in no other,
  -- clients must show a certificate that the pool of the CA, which is not empty, verifies.
  pub webhook_tls_config-IsSecure :
      (mode client_ca : Text) {c : TlsConfig C P}
      → webhook_tls_config crypto mode client_ca ≡ ok c
      → (c.min_version ≡ version_tls13)
        × (((mode ≡ bytes "mtls") × (client_ca ≢ []) × AsksClients client_ca c)
            ⊎ ((mode ≡ bytes "server") × AsksNone c))
  unfolding webhook_tls_config verified_config
  webhook_tls_config-IsSecure mode client_ca h = elim (Bool-cases (text_eq mode (bytes "server"))) [
    | inl s ↦ rw (← ok-injective (rw s at h)) (
      refl,
      inr ((text_eq_iff mode (bytes "server")).0 s, record { auth = refl; no_pool = refl }),
    )
    | inr s ↦ elim (Bool-cases (text_eq mode (bytes "mtls"))) [
      | inl m ↦
          let (v, n, asks) = verified_config-ok client_ca (rw (s, m) at h) in
          (v, inl ((text_eq_iff mode (bytes "mtls")).0 m, n, asks))
      | inr m ↦ absurd (cc (rw (s, m) at h))
    ]
  ]
