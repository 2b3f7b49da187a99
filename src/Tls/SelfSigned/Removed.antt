-- ===== src/Tls/SelfSigned/Removed.antt =====
-- What a generated certificate leaves on disk.
use chur.Base.{Option, none, some, List, [], ◌∷◌, ◌++◌, ◌≡◌, refl, Result, ok, err}
use chur.Text.{Text, bytes}
use chur.Tls.SelfSigned.{
  CertLib, CertOp, make_temp_dir, write_file, remove_all, CertError, no_temp_dir, TempFiles,
  CertPaths, Traced, after_cleanup, write_then, generate_tls_cert, from_temp_dir,
  generate_cert_memory, generate_temp_cert,
}

-- The paths below the directory.
abbrev pub paths_in : Text → CertPaths
paths_in dir = record {
  cert_file = dir ++ bytes "/tls.crt";
  key_file = dir ++ bytes "/tls.key";
  dir = dir;
}

-- The two writes, of the certificate and of its key.
abbrev pub cert_write : Text → Text → CertOp
cert_write dir pem = write_file (dir ++ bytes "/tls.crt") pem 420

abbrev pub key_write : Text → Text → CertOp
key_write dir pem = write_file (dir ++ bytes "/tls.key") pem 384

-- How GenerateTempCert ends: MkdirTemp failed; or the certificate failed, and the last call is the
-- removal of the directory that MkdirTemp made, whose error is joined to that of the certificate;
-- or it returns the paths of the two files that it has written, for the pair that was generated.
pub data IsTidy {E : Type 0} (files : TempFiles E) (pems : Result (CertError E) (Text × Text))
    (t : Traced E CertPaths) : Type 0 where
  not_made :
      (e : E)
      → files.temp_dir ≡ err e
      → t ≡ (err (no_temp_dir e), make_temp_dir ∷ [])
      → IsTidy files pems t
  removed :
      (dir : Text) (e : CertError E) (ops : List CertOp)
      → files.temp_dir ≡ ok dir
      → generate_tls_cert files pems (dir ++ bytes "/tls.crt") (dir ++ bytes "/tls.key")
        ≡ (err e, ops)
      → t ≡ (
        err (after_cleanup (files.failure (remove_all dir)) e),
        make_temp_dir ∷ (ops ++ remove_all dir ∷ []),
      )
      → IsTidy files pems t
  written :
      (dir cert_pem key_pem : Text)
      → files.temp_dir ≡ ok dir
      → pems ≡ ok (cert_pem, key_pem)
      → t
        ≡ (ok (paths_in dir), make_temp_dir ∷ cert_write dir cert_pem ∷ key_write dir key_pem ∷ [])
      → IsTidy files pems t

module _ {E : Type 0} (files : TempFiles E) where
  in_dir-IsTidy :
      (dir cert_pem key_pem : Text) (o p : Option E)
      → files.temp_dir ≡ ok dir
      → files.failure (cert_write dir cert_pem) ≡ o
      → files.failure (key_write dir key_pem) ≡ p
      → IsTidy files
          (ok (cert_pem, key_pem))
          (from_temp_dir files (ok (cert_pem, key_pem)) (ok dir))
  unfolding from_temp_dir write_then generate_tls_cert
  in_dir-IsTidy dir cert_pem key_pem (some e) p d h k =
      rw h (removed dir _ (cert_write dir cert_pem ∷ []) d (rw h refl) refl)
  in_dir-IsTidy dir cert_pem key_pem none (some e) d h k =
      rw (h, k)
        (removed dir _ (cert_write dir cert_pem ∷ key_write dir key_pem ∷ []) d (rw (h, k) refl)
          refl)
  in_dir-IsTidy dir cert_pem key_pem none none d h k =
      rw (h, k) (written dir cert_pem key_pem d refl refl)

  from_temp_dir-IsTidy :
      (pems : Result (CertError E) (Text × Text)) (temp_dir : Result E Text)
      → files.temp_dir ≡ temp_dir
      → IsTidy files pems (from_temp_dir files pems temp_dir)
  unfolding from_temp_dir generate_tls_cert
  from_temp_dir-IsTidy pems (err e) d = not_made e d refl
  from_temp_dir-IsTidy (err e) (ok dir) d = removed dir e [] d refl refl
  from_temp_dir-IsTidy (ok (cert_pem, key_pem)) (ok dir) d =
      in_dir-IsTidy dir cert_pem key_pem _ _ d refl refl

  pub generate_temp_cert-IsTidy :
      {K : Type 0} (lib : CertLib E K) (host : Text)
      → IsTidy files (generate_cert_memory lib host) (generate_temp_cert files lib host)
  unfolding generate_temp_cert
  generate_temp_cert-IsTidy lib host =
      from_temp_dir-IsTidy (generate_cert_memory lib host) files.temp_dir refl
