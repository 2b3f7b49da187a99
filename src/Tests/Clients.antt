-- ===== src/Tests/Clients.antt =====
-- The clients of other servers at concrete responses.
use chur.Base.{
  ℕ, ◌<◌, ◌≤◌, Bool, true, false, Option, none, some, List, [], ◌∷◌, ◌++◌, ◌≡◌, ◌≢◌, ◌↔◌, refl,
  arith, Result, ok, err,
}
use chur.Base.Int.{ℤ, pos}
use chur.Text.{Text, bytes, is_empty}
use chur.Dict.{Dict}
use chur.Validate.SecretRef.{IsSecretRef}
use chur.Tls.{Crypto, version_tls13}
use chur.Http.{HttpCall, HttpResponse, Http}
use chur.Keeper.Handler.{Shared}
use chur.Keeper.Client.{keeper_http}
use chur.Keeper.Client.RoundTrip.{IsAvailable, get_keeper_secret_iff}
use chur.Url.Query.{Lacks, cut_query, query_value}
use chur.Keeper.HttpBackend.{HttpBackend, backend_call, get_http_secret}
use chur.Keeper.HttpBackend.Asked.{IsFetched, get_http_secret_iff, backend_call-query_value}
use chur.Providers.KeeperClient.{KeeperProvider, provider_from_env, get_keeper_secret}
use chur.Providers.KeeperClient.Verified.{IsVerifiedClient, provider_from_env-IsVerifiedClient}
use chur.Providers.K8s.{K8sProvider, get_k8s_secret}
use chur.Providers.K8s.Chosen.{IsChosen, get_k8s_secret_iff}

-- A library in which every key pair loads and every text but the empty one is a pool.
abbrev pub crypto : Crypto ℕ ℕ ℕ
crypto = record {
  load_key_pair = λ cert key. ok 1;
  parse_pool = λ pem. chur.Base.if◌then◌else◌ (is_empty pem) none (some 7);
}

abbrev no_env : Text → Text
no_env name = []

abbrev no_file : Text → Result ℕ Text
no_file path = err 2

abbrev join_path : Text → Text → Result ℕ Text
join_path url path = ok (url ++ path)

abbrev provider : KeeperProvider ℕ ℕ
provider = record {
  url = bytes "https://chur-keeper.chur-system.svc:9443/v1/secrets/get";
  tls = record {
    min_version = version_tls13;
    insecure_skip_verify = false;
    root_cas = none;
    certificates = [];
  };
  max_secret_size = pos 1048576;
}

provider_made : provider_from_env crypto no_file join_path no_env ≡ ok provider
unfolding provider_from_env chur.Text.text_eq
provider_made = refl

provider_from_env-IsVerifiedClient_example : IsVerifiedClient crypto no_file no_env provider
provider_from_env-IsVerifiedClient_example =
    provider_from_env-IsVerifiedClient crypto no_file join_path no_env provider_made

abbrev path_of : Text → Text
path_of url = bytes "/v1/secrets/get"

abbrev same : Text → Text
same t = t

abbrev decode : Text → Option Text
decode body = some body

abbrev backend : Text → Result ℕ Text
backend ref = ok (bytes "s3cret")

abbrev shared : Shared
shared = record { taken = 0; in_flight = 0; results = [] }

get_keeper_secret_iff_example :
    (get_keeper_secret same
        (keeper_http path_of same decode backend (pos 100) true shared)
        provider
        (bytes "prod/db")
      ≡ ok (bytes "s3cret"))
    ↔ IsAvailable path_of same same decode backend
        (pos 100)
        shared
        provider
        1048576
        (bytes "prod/db")
        (bytes "s3cret")
get_keeper_secret_iff_example =
    get_keeper_secret_iff path_of same same decode backend (pos 100) shared provider 1048576
      (bytes "prod/db") (bytes "s3cret") refl (omega arith) refl refl

-- A server that answers everything with the same six bytes.
abbrev http : Http ℕ
http = record {
  refusal = λ c. none;
  send =
      λ c. ok (record { status = 200; body = record { content = bytes "s3cret"; failure = none } });
}

abbrev vault : HttpBackend
vault = record {
  base_url = bytes "https://kv";
  token = bytes "t0ken";
  max_size = pos 100;
  timeout = pos 30000000000;
}

vault_answered : get_http_secret http vault (bytes "a/b") ≡ ok (bytes "s3cret")
unfolding get_http_secret chur.Validate.validate_keeper_ref chur.Text.has_prefix chur.Text.contains
    chur.Validate.first_invalid chur.Text.Runes.runes chur.Validate.is_keeper_rune chur.Http.call
    chur.Http.read_body chur.Io.read_limited chur.Base.Int.succ_int64 chur.ReadUtil.check_read
vault_answered = refl

get_http_secret_iff_example :
    (get_http_secret http vault (bytes "a/b") ≡ ok (bytes "s3cret"))
    ↔ IsFetched http vault 100 (bytes "a/b") (bytes "s3cret")
get_http_secret_iff_example = get_http_secret_iff http vault 100 (bytes "a/b") refl (omega arith)

abbrev one_key : Text → Text → Result ℕ (Dict Text)
one_key namespace ref = ok ((bytes "password", bytes "s3cret") ∷ [])

abbrev in_default : K8sProvider
in_default = record { namespace = bytes "default"; secret_key = [] }

get_k8s_secret_iff_example :
    (get_k8s_secret one_key in_default (bytes "db") ≡ ok (bytes "s3cret")) ↔ (
      IsSecretRef (bytes "db")
      × ((entries : Dict Text) × (one_key (bytes "default") (bytes "db") ≡ ok entries)
          × IsChosen [] entries (bytes "s3cret")))
get_k8s_secret_iff_example = get_k8s_secret_iff one_key in_default (bytes "db") (bytes "s3cret")

abbrev vault_url : Text
vault_url = (backend_call vault (bytes "a/b")).url

abbrev base : Text
base = bytes "https://kv"

base-Lacks : Lacks b'?' base × Lacks b'#' base
base-Lacks = (
  (refl, (refl, (refl, (refl, (refl, (refl, (refl, (refl, (refl, (refl, tt)))))))))),
  (refl, (refl, (refl, (refl, (refl, (refl, (refl, (refl, (refl, (refl, tt)))))))))),
)

backend_call-query_value_example :
    ((cut_query vault_url).0 ≡ base) × (query_value (bytes "ref") vault_url ≡ some (bytes "a/b"))
backend_call-query_value_example =
    backend_call-query_value vault (bytes "a/b") base-Lacks.0 base-Lacks.1
      (omega arith, (omega arith, (omega arith, tt)))
