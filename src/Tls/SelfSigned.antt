-- ===== src/Tls/SelfSigned.antt =====
-- The generated certificates (internal/tls/tls.go). The crypto library and the results of the
-- calls on the file system are parameters; the calls that were made are a list.
pub mod Removed
use chur.Base.{
  ℕ, ◌+◌, ◌*◌, ◌^◌, Bool, true, Option, none, some, List, [], ◌∷◌, ◌++◌, Result, ok, err, ◌>>=◌,
  map_err,
}
use chur.Text.{Text, bytes}

-- x509.Certificate, by the fields that GenerateCertMemory sets; times are in seconds.
pub record Template : Type 0 where
  pub serial : ℕ
  pub common_name : Text
  pub not_before : ℕ
  pub not_after : ℕ
  pub digital_signature : Bool
  pub server_auth : Bool
  pub basic_constraints_valid : Bool
  pub ip_addresses : List Text
  pub dns_names : List Text

-- The calls of the crypto library; `now` is the clock, and an IP address is known by its text.
pub record CertLib (E K : Type 0) : Type 0 where
  pub generate_key : Result E K
  pub random_below : ℕ → Result E ℕ
  pub now : ℕ
  pub parse_ip : Text → Option Text
  pub create_certificate : Template → K → Result E Text
  pub marshal_key : K → Result E Text
  pub encode_pem : Text → Text → Result E Text

-- The calls on the file system, with their modes.
pub data CertOp : Type 0 where
  make_temp_dir : CertOp
  write_file : Text → Text → ℕ → CertOp
  remove_all : Text → CertOp

pub data CertError (E : Type 0) : Type 0 where
  no_key no_serial no_cert no_cert_pem no_key_bytes no_key_pem no_temp_dir : E → CertError E
  not_written : Text → E → CertError E
  not_cleaned : CertError E → E → CertError E

-- The results of the file system: the new directory, and the error of a write or a removal.
pub record TempFiles (E : Type 0) : Type 0 where
  pub temp_dir : Result E Text
  pub failure : CertOp → Option E

-- The paths of a certificate and its key, and the directory that the cleanup removes.
pub record CertPaths : Type 0 where
  pub cert_file : Text
  pub key_file : Text
  pub dir : Text

unfoldable pub with_host : Text → Option Text → Template → Template
with_host host none t = record t { dns_names = t.dns_names ++ host ∷ [] }
with_host host (some ip) t = record t { ip_addresses = t.ip_addresses ++ ip ∷ [] }

-- The certificate is valid for 365 days.
unfoldable pub template : ℕ → Text → Option Text → ℕ → Template
unfolding with_host
template now host ip serial = with_host host ip (record {
  serial = serial;
  common_name = host;
  not_before = now;
  not_after = now + 31536000;
  digital_signature = true;
  server_auth = true;
  basic_constraints_valid = true;
  ip_addresses = [];
  dns_names = [];
})

module _ {E K : Type 0} (lib : CertLib E K) where
  -- GenerateCertMemory: the PEM of the certificate and of its key
  unfoldable pub generate_cert_memory : Text → Result (CertError E) (Text × Text)
  unfolding template
  generate_cert_memory host = do
    key ← map_err no_key lib.generate_key
    serial ← map_err no_serial (lib.random_below (2 ^ 128))
    der ←
        map_err no_cert
          (lib.create_certificate (template lib.now host (lib.parse_ip host) serial) key)
    cert_pem ← map_err no_cert_pem (lib.encode_pem (bytes "CERTIFICATE") der)
    key_bytes ← map_err no_key_bytes (lib.marshal_key key)
    key_pem ← map_err no_key_pem (lib.encode_pem (bytes "EC PRIVATE KEY") key_bytes)
    ok (cert_pem, key_pem)

-- A result, and the calls that were made for it, in their order.
abbrev pub Traced : Type 0 → Type 0 → Type 0
Traced E A = Result (CertError E) A × List CertOp

-- The error of a failed certificate, joined with that of its cleanup.
unfoldable pub after_cleanup : {E : Type 0} → Option E → CertError E → CertError E
after_cleanup none e = e
after_cleanup (some c) e = not_cleaned e c

module _ {E : Type 0} (files : TempFiles E) where
  -- A write that failed ends the function.
  unfoldable pub write_then : Text → CertOp → Option E → Traced E (Unit {0}) → Traced E (Unit {0})
  write_then path op (some e) rest = (err (not_written path e), op ∷ [])
  write_then path op none (r, ops) = (r, op ∷ ops)

  -- GenerateTLSCert, from the generated PEMs; the modes are 0644 and 0600.
  unfoldable pub generate_tls_cert :
      Result (CertError E) (Text × Text) → Text → Text → Traced E (Unit {0})
  unfolding write_then
  generate_tls_cert (err e) cert_path key_path = (err e, [])
  generate_tls_cert (ok (cert_pem, key_pem)) cert_path key_path =
      let write_cert = write_file cert_path cert_pem 420 in
      let write_key = write_file key_path key_pem 384 in
      write_then cert_path write_cert (files.failure write_cert)
        (write_then key_path write_key (files.failure write_key) (ok tt, []))

  -- The paths in the directory, which is removed again where the certificate failed.
  unfoldable pub in_temp_dir : Text → Traced E (Unit {0}) → Traced E CertPaths
  unfolding after_cleanup
  in_temp_dir dir (ok u, ops) = (
    ok (record {
      cert_file = dir ++ bytes "/tls.crt";
      key_file = dir ++ bytes "/tls.key";
      dir = dir;
    }),
    make_temp_dir ∷ ops,
  )
  in_temp_dir dir (err e, ops) = (
    err (after_cleanup (files.failure (remove_all dir)) e),
    make_temp_dir ∷ (ops ++ remove_all dir ∷ []),
  )

  -- GenerateTempCert, by the result of MkdirTemp and by the PEMs
  unfoldable pub from_temp_dir :
      Result (CertError E) (Text × Text) → Result E Text → Traced E CertPaths
  unfolding generate_tls_cert in_temp_dir
  from_temp_dir pems (err e) = (err (no_temp_dir e), make_temp_dir ∷ [])
  from_temp_dir pems (ok dir) =
      in_temp_dir dir (generate_tls_cert pems (dir ++ bytes "/tls.crt") (dir ++ bytes "/tls.key"))

  unfoldable pub generate_temp_cert : {K : Type 0} → CertLib E K → Text → Traced E CertPaths
  unfolding from_temp_dir generate_cert_memory
  generate_temp_cert lib host = from_temp_dir (generate_cert_memory lib host) files.temp_dir
