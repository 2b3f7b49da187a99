-- ===== src/Providers/KeeperClient.antt =====
-- The keeper provider of chur-init (internal/providers/keeper/keeper.go): its TLS configuration,
-- its factory and its request. The JSON encoder, url.JoinPath, the crypto library, the files and
-- the HTTP client are parameters; the log records are not modelled.
pub mod Verified
pub mod Secret
use chur.Base.{
  ℕ, Bool, true, false, not, ◌||◌, ◌&&◌, Option, none, some, List, [], ◌∷◌, if◌then◌else◌, ◌==◌,
  Result, ok, err, ◌>>=◌, ◌>>◌, map_err,
}
use chur.Base.Int.{ℤ, pos, ltb_ℤ}
use chur.Text.{Text, bytes, is_empty, text_eq}
use chur.Keeper.Config.{value_or}
use chur.Tls.{Crypto, version_tls13}
use chur.ByteSize.{SizeError}
use chur.Http.{HttpCall, HttpResponse, Http, ClientError, bad_status, unread, read_body, call}
use chur.ByteSize

-- The fields of the client's crypto/tls.Config that the program sets.
pub record ClientTls (C P : Type 0) : Type 0 where
  pub min_version : ℕ
  pub insecure_skip_verify : Bool
  pub root_cas : Option P
  pub certificates : List C

pub data KeeperError (E : Type 0) : Type 0 where
  skip_verify_with_ca bad_server_ca : KeeperError E
  ca_unread no_client_cert bad_url : E → KeeperError E
  bad_max_size : SizeError → KeeperError E

-- KeeperProvider, with the TLS configuration of its client
pub record KeeperProvider (C P : Type 0) : Type 0 where
  pub url : Text
  pub tls : ClientTls C P
  pub max_secret_size : ℤ

module _ {E C P : Type 0} (crypto : Crypto E C P) where
  unfoldable pub pool_of : Result E Text → Result (KeeperError E) (Option P)
  pool_of (err e) = err (ca_unread e)
  pool_of (ok pem) = elim (crypto.parse_pool pem) [
    | none ↦ err bad_server_ca
    | some p ↦ ok (some p)
  ]

  unfoldable pub server_pool : (Text → Result E Text) → Text → Result (KeeperError E) (Option P)
  unfolding pool_of
  server_pool read_file ca = if is_empty ca then ok none else pool_of (read_file ca)

  unfoldable pub client_pair : Text → Text → Result (KeeperError E) (List C)
  client_pair cert_file key_file =
      let pair : Result (KeeperError E) (List C) =
        map_err no_client_cert (crypto.load_key_pair cert_file key_file) >>= λ c. ok (c ∷ []) in
      if not (is_empty cert_file) && not (is_empty key_file) then pair else ok []

  -- NewProvider
  unfoldable pub new_provider :
      (Text → Result E Text)
      → (Text → Text → Result E Text)
      → Text
      → Bool
      → Text
      → Text
      → Text
      → Result (KeeperError E) (KeeperProvider C P)
  unfolding server_pool client_pair
  new_provider read_file join_path raw_url skip_verify cert_file key_file server_ca =
      let rest : Result (KeeperError E) (KeeperProvider C P) = (do
        pool ← server_pool read_file server_ca
        certs ← client_pair cert_file key_file
        endpoint ← map_err bad_url (join_path raw_url (bytes "/v1/secrets/get"))
        ok (record {
          url = endpoint;
          tls = record {
            min_version = version_tls13;
            insecure_skip_verify = skip_verify;
            root_cas = pool;
            certificates = certs;
          };
          max_secret_size = pos 1048576;
        })) in
      if skip_verify && not (is_empty server_ca) then err skip_verify_with_ca else rest

  -- The size from CHUR_KEEPER_CLIENT_MAX_SECRET_SIZE, which is kept where it is positive.
  unfoldable pub with_size : KeeperProvider C P → Text → Result (KeeperError E) (KeeperProvider C P)
  with_size p v =
      if is_empty v
      then ok p
      else map_err bad_max_size (ByteSize.parse v) >>= λ n.
          ok (if ltb_ℤ (pos 0) n then record p { max_secret_size = n } else p)

  -- The factory that init registers.
  unfoldable pub provider_from_env :
      (Text → Result E Text)
      → (Text → Text → Result E Text)
      → (Text → Text)
      → Result (KeeperError E) (KeeperProvider C P)
  unfolding new_provider with_size value_or
  provider_from_env read_file join_path getenv =
      let skip = getenv (bytes "CHUR_KEEPER_INSECURE_SKIP_VERIFY") in
      new_provider read_file join_path
        (value_or (bytes "https://chur-keeper.chur-system.svc:9443")
          (getenv (bytes "CHUR_KEEPER_URL")))
        (text_eq skip (bytes "1") || text_eq skip (bytes "true"))
        (getenv (bytes "CHUR_KEEPER_TLS_CERT_PATH")) (getenv (bytes "CHUR_KEEPER_TLS_KEY_PATH"))
        (getenv (bytes "CHUR_KEEPER_SERVER_CA"))
      >>= λ p. with_size p (getenv (bytes "CHUR_KEEPER_CLIENT_MAX_SECRET_SIZE"))

-- The request for a ref, whose JSON body is encoded.
unfoldable pub secret_call : (Text → Text) → Text → Text → HttpCall
secret_call encode url ref = record {
  method = bytes "POST";
  url = url;
  headers = (bytes "Content-Type", bytes "application/json") ∷ [];
  body = encode ref;
}

module _ {E : Type 0} where
  -- A response is read only if its status is 200.
  unfoldable pub secret_of : ℤ → HttpResponse E → Result (ClientError E) Text
  secret_of max_size r =
      if not (r.status == 200)
      then err (bad_status r.status)
      else map_err unread (read_body max_size r.body)

  -- GetSecret
  unfoldable pub get_keeper_secret :
      {C P : Type 0}
      → (Text → Text)
      → Http E
      → KeeperProvider C P
      → Text
      → Result (ClientError E) Text
  unfolding secret_call secret_of
  get_keeper_secret encode http p ref =
      call http (secret_call encode p.url ref) >>= λ r. secret_of p.max_secret_size r
