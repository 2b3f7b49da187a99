-- ===== src/Keeper/ServerTls/Cleaned.antt =====
-- What the keeper's TLS configuration asks of clients, and what it leaves on disk.
use chur.Base.{
  ◌||◌, Option, none, some, List, [], ◌∷◌, ◌++◌, ◌≡◌, ◌⊎◌, refl, inl, inr, Bool-cases, Result, ok,
  err, ok-injective, sym, ap, subst,
}
use mathlib.Core.List.{append-nil}
use chur.Text.{Text, is_empty}
use chur.Tls.{TlsConfig, TlsError, Crypto}
use chur.Tls.Secure.{IsServerConfig, server_tls_config-IsServerConfig}
use chur.Tls.SelfSigned.{
  CertLib, CertOp, make_temp_dir, remove_all, CertError, TempFiles, CertPaths, Traced,
}
use chur.Tls.SelfSigned.Removed.{IsTidy, not_made, removed, written, generate_temp_cert-IsTidy}
use chur.Keeper.Config.{TlsMode, self_signed, mtls, Config}
use chur.Keeper.ServerTls.{
  ServerTlsError, ServerTls, OwnPair, cleaned, generated, loaded_config, with_pair,
  self_signed_config, with_ca_file, mtls_config, keeper_tls_config,
}

-- What these calls do with the temporary directory, by the result of MkdirTemp and the cleanup that
-- is returned: it was not asked for or not made, or the last call is its removal, or its removal is
-- what the cleanup does.
pub data IsCleaned {E : Type 0} (temp_dir : Result E Text)
    : Option Text → List CertOp → Type 0 where
  untouched : IsCleaned temp_dir none []
  failed : (e : E) → temp_dir ≡ err e → IsCleaned temp_dir none (make_temp_dir ∷ [])
  undone :
      (dir : Text) (ops : List CertOp)
      → temp_dir ≡ ok dir
      → IsCleaned temp_dir none (make_temp_dir ∷ (ops ++ remove_all dir ∷ []))
  made :
      (dir : Text) (ops : List CertOp)
      → temp_dir ≡ ok dir
      → IsCleaned temp_dir (some dir) (make_temp_dir ∷ ops)

-- The cleanup of a result: none where it is an error.
abbrev pub cleanup_of : {E C P : Type 0} → Result (ServerTlsError E) (ServerTls C P) → Option Text
cleanup_of (ok s) = s.cleanup
cleanup_of (err e) = none

TlsMode-cases : (m : TlsMode) → (m ≡ self_signed) ⊎ (m ≡ mtls)
TlsMode-cases self_signed = inl refl
TlsMode-cases mtls = inr refl

undone_after :
    {E : Type 0} {temp_dir : Result E Text} (cleanup : Option Text) (ops : List CertOp)
    → IsCleaned temp_dir cleanup ops
    → IsCleaned temp_dir none (ops ++ cleaned cleanup)
unfolding cleaned
undone_after none ops c = rw (append-nil ops) c
undone_after (some _) _ (made dir ops d) = undone dir ops d

module _ {E C P : Type 0} (crypto : Crypto E C P) where
  loaded_config-IsCleaned :
      {temp_dir : Result E Text} (cleanup : Option Text) (ops : List CertOp)
      (r : Result (TlsError E) (TlsConfig C P))
      → IsCleaned temp_dir cleanup ops
      → IsCleaned temp_dir
          (cleanup_of (loaded_config crypto cleanup ops r).0)
          (loaded_config crypto cleanup ops r).1
  unfolding loaded_config
  loaded_config-IsCleaned cleanup ops (ok c) h = h
  loaded_config-IsCleaned cleanup ops (err e) h = undone_after cleanup ops h

  -- What the rest does with the result of GenerateTempCert.
  abbrev generated_then :
      Traced E CertPaths → Result (ServerTlsError E) (ServerTls C P) × List CertOp
  generated_then t = with_pair crypto (generated t.0) t.1

  generated-IsCleaned :
      {files : TempFiles E} {pems : Result (CertError E) (Text × Text)} (t : Traced E CertPaths)
      → IsTidy files pems t
      → IsCleaned files.temp_dir (cleanup_of (generated_then t).0) (generated_then t).1
  unfolding with_pair generated
  generated-IsCleaned {files} t (not_made x h q) =
      subst (λ t. IsCleaned files.temp_dir (cleanup_of (generated_then t).0) (generated_then t).1)
        (sym q) (failed x h)
  generated-IsCleaned {files} t (removed dir e ops h g q) =
      subst (λ t. IsCleaned files.temp_dir (cleanup_of (generated_then t).0) (generated_then t).1)
        (sym q) (undone dir ops h)
  generated-IsCleaned {files} t (written dir c k h p q) =
      subst (λ t. IsCleaned files.temp_dir (cleanup_of (generated_then t).0) (generated_then t).1)
        (sym q) (loaded_config-IsCleaned (some dir) _ _ (made dir _ h))

  module _ {K : Type 0} (lib : CertLib E K) (files : TempFiles E) (getenv : Text → Text)
      (read_file : Text → Result E Text) where
    self_signed_config-IsCleaned :
        (cfg : Config)
        → (let r = self_signed_config crypto lib files getenv cfg in
            IsCleaned files.temp_dir (cleanup_of r.0) r.1)
    unfolding self_signed_config
    self_signed_config-IsCleaned cfg =
        elim (Bool-cases (is_empty cfg.tls_cert_file || is_empty cfg.tls_key_file)) [
          | inl t ↦ rw t (generated-IsCleaned _ (generate_temp_cert-IsTidy files lib _))
          | inr t ↦ rw t (unfold with_pair in loaded_config-IsCleaned none [] _ untouched)
        ]

    with_ca_file-IsCleaned :
        (cfg : Config) (pem : Result E Text)
        → (let r = with_ca_file crypto cfg pem in IsCleaned files.temp_dir (cleanup_of r.0) r.1)
    unfolding with_ca_file
    with_ca_file-IsCleaned cfg (err e) = untouched
    with_ca_file-IsCleaned cfg (ok pem) = loaded_config-IsCleaned none [] _ untouched

    mtls_config-IsCleaned :
        (cfg : Config)
        → (let r = mtls_config crypto read_file cfg in
            IsCleaned files.temp_dir (cleanup_of r.0) r.1)
    unfolding mtls_config
    mtls_config-IsCleaned cfg = elim (Bool-cases (is_empty cfg.client_ca_file)) [
      | inl t ↦ rw t untouched
      | inr t ↦ rw t (elim (Bool-cases (is_empty cfg.tls_cert_file || is_empty cfg.tls_key_file)) [
        | inl k ↦ rw k untouched
        | inr k ↦ rw k (with_ca_file-IsCleaned cfg (read_file cfg.client_ca_file))
      ])
    ]

    -- However ServerTLSConfig ends, every temporary directory that it made is dealt with: where it
    -- returns an error or no cleanup, none was made or the last call is its removal, and otherwise
    -- the cleanup is the removal of the directory that MkdirTemp made.
    pub keeper_tls_config-IsCleaned :
        (cfg : Config)
        → (let r = keeper_tls_config crypto lib files getenv read_file cfg in
            IsCleaned files.temp_dir (cleanup_of r.0) r.1)
    unfolding keeper_tls_config
    keeper_tls_config-IsCleaned cfg = elim (TlsMode-cases cfg.tls_mode) [
      | inl m ↦ rw m (self_signed_config-IsCleaned cfg)
      | inr m ↦ rw m (mtls_config-IsCleaned cfg)
    ]

    loaded_config-ok :
        (cleanup : Option Text) (ops : List CertOp) (r : Result (TlsError E) (TlsConfig C P))
        {s : ServerTls C P}
        → (loaded_config crypto cleanup ops r).0 ≡ ok s
        → r ≡ ok s.config
    unfolding loaded_config
    loaded_config-ok cleanup ops (ok c) h = ap ok (ap (λ s. s.config) (ok-injective h))
    loaded_config-ok cleanup ops (err e) h = cc

    with_ca_file-ok :
        (cfg : Config) (pem : Result E Text) {s : ServerTls C P}
        → (with_ca_file crypto cfg pem).0 ≡ ok s
        → (ca : Text) × (pem ≡ ok ca)
          × IsServerConfig crypto ca cfg.tls_cert_file cfg.tls_key_file s.config
    unfolding with_ca_file
    with_ca_file-ok cfg (err e) h = absurd (cc)
    with_ca_file-ok cfg (ok ca) h =
        (ca, refl, server_tls_config-IsServerConfig crypto ca _ _ (loaded_config-ok none [] _ h))

    with_pair-ok :
        (r : Result (ServerTlsError E) OwnPair) (ops : List CertOp) {s : ServerTls C P}
        → (with_pair crypto r ops).0 ≡ ok s
        → (p : OwnPair) × IsServerConfig crypto [] p.cert_file p.key_file s.config
    unfolding with_pair
    with_pair-ok (err e) ops h = absurd (cc)
    with_pair-ok (ok p) ops h =
        (p, server_tls_config-IsServerConfig crypto [] _ _ (loaded_config-ok p.cleanup ops _ h))

    self_signed_config-ok :
        (cfg : Config) {s : ServerTls C P}
        → (self_signed_config crypto lib files getenv cfg).0 ≡ ok s
        → (p : OwnPair) × IsServerConfig crypto [] p.cert_file p.key_file s.config
    unfolding self_signed_config
    self_signed_config-ok cfg h =
        elim (Bool-cases (is_empty cfg.tls_cert_file || is_empty cfg.tls_key_file)) [
          | inl t ↦ with_pair-ok _ _ (rw t at h)
          | inr t ↦
              let own : Result (ServerTlsError E) OwnPair = ok (record {
                cert_file = cfg.tls_cert_file;
                key_file = cfg.tls_key_file;
                cleanup = none;
              }) in
              with_pair-ok own [] (rw t at h)
        ]

    mtls_config-ok :
        (cfg : Config) {s : ServerTls C P}
        → (mtls_config crypto read_file cfg).0 ≡ ok s
        → (ca : Text) × (read_file cfg.client_ca_file ≡ ok ca)
          × IsServerConfig crypto ca cfg.tls_cert_file cfg.tls_key_file s.config
    unfolding mtls_config
    mtls_config-ok cfg h = elim (Bool-cases (is_empty cfg.client_ca_file)) [
      | inl t ↦ absurd (cc (rw t at h))
      | inr t ↦ elim (Bool-cases (is_empty cfg.tls_cert_file || is_empty cfg.tls_key_file)) [
        | inl k ↦ absurd (cc (rw (t, k) at h))
        | inr k ↦ with_ca_file-ok cfg (read_file cfg.client_ca_file) (rw (t, k) at h)
      ]
    ]

    -- A TLS configuration of the keeper is for TLS 1.3 and above with one certificate. In the mode
    -- self-signed clients need no certificate. In the mode mtls the certificate is the configured
    -- one, and clients must show a certificate of the configured CA if the file of that CA is not
    -- empty; if the file is empty, they need none.
    pub keeper_tls_config-IsServerConfig :
        (cfg : Config) {s : ServerTls C P}
        → (keeper_tls_config crypto lib files getenv read_file cfg).0 ≡ ok s
        → ((cfg.tls_mode ≡ self_signed)
            × ((p : OwnPair) × IsServerConfig crypto [] p.cert_file p.key_file s.config))
          ⊎ ((cfg.tls_mode ≡ mtls)
              × ((ca : Text) × (read_file cfg.client_ca_file ≡ ok ca)
                  × IsServerConfig crypto ca cfg.tls_cert_file cfg.tls_key_file s.config))
    unfolding keeper_tls_config
    keeper_tls_config-IsServerConfig cfg h = elim (TlsMode-cases cfg.tls_mode) [
      | inl m ↦ inl (m, self_signed_config-ok cfg (rw m at h))
      | inr m ↦ inr (m, mtls_config-ok cfg (rw m at h))
    ]
