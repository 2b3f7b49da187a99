-- ===== src/Keeper/HttpBackend.antt =====
-- The keeper's HTTP backend (internal/keeper/http/http.go). url.Parse, the token file and the HTTP
-- client are parameters; a duration is an int64 of nanoseconds.
pub mod Asked
use chur.Base.{
  ℕ, Bool, true, false, not, ◌||◌, ◌&&◌, Option, none, some, List, [], ◌∷◌, ◌++◌, if◌then◌else◌,
  ◌==◌, Result, ok, err, ◌>>=◌, ◌>>◌, map_err,
}
use chur.Base.Int.{ℤ, pos, ltb_ℤ}
use chur.Text.{Text, bytes, is_empty, text_eq}
use chur.Text.Trim.{trim_space}
use chur.Url.{query_escape}
use chur.Validate.{Reason, validate_keeper_ref}
use chur.Http.{HttpCall, HttpResponse, Http, ClientError, bad_status, unread, read_body, call}

-- HTTPBackend, with the timeout of its client
pub record HttpBackend : Type 0 where
  pub base_url : Text
  pub token : Text
  pub max_size : ℤ
  pub timeout : ℤ

pub data NewError (E : Type 0) : Type 0 where
  no_base_url bad_base_url : NewError E
  token_unread : E → NewError E
  bad_max_size : ℤ → NewError E

pub data SecretError (E : Type 0) : Type 0 where
  bad_ref : Reason → SecretError E
  not_fetched : ClientError E → SecretError E

-- strings.TrimRight(s, "/")
unfoldable pub trim_slashes : Text → Text
trim_slashes [] = []
trim_slashes (c ∷ s) =
    let rest = trim_slashes s in if is_empty rest && c == b'/' then [] else c ∷ rest

-- url.Parse's scheme and host: `u.Scheme != "https" || u.Host == ""`
unfoldable pub is_https : {E : Type 0} → Result E (Text × Text) → Bool
is_https (err e) = false
is_https (ok (scheme, host)) = text_eq scheme (bytes "https") && not (is_empty host)

module _ {E : Type 0} where
  unfoldable pub token_of : (Text → Result E Text) → Text → Result (NewError E) Text
  token_of read_file token_file =
      let read : Result (NewError E) Text =
        map_err token_unread (read_file token_file) >>= λ b. ok (trim_space b) in
      if not (is_empty token_file) then read else ok []

  -- New, after the token.
  unfoldable pub sized_backend : Text → Text → ℤ → ℤ → Result (NewError E) HttpBackend
  unfolding trim_slashes
  sized_backend base_url token timeout max_size =
      if not (ltb_ℤ (pos 0) max_size)
      then err (bad_max_size max_size)
      else ok (record {
        base_url = trim_slashes base_url;
        token = token;
        max_size = max_size;
        timeout = if not (ltb_ℤ (pos 0) timeout) then pos 30000000000 else timeout;
      })

  -- New
  unfoldable pub new_http_backend :
      (Text → Result E (Text × Text))
      → (Text → Result E Text)
      → Text
      → Text
      → ℤ
      → ℤ
      → Result (NewError E) HttpBackend
  unfolding is_https token_of sized_backend
  new_http_backend parse_url read_file base_url token_file timeout max_size =
      let made : Result (NewError E) HttpBackend =
        token_of read_file token_file >>= λ token. sized_backend base_url token timeout max_size in
      if is_empty base_url
      then err no_base_url
      else if not (is_https (parse_url base_url))
      then err bad_base_url
      else made

-- The request for a ref.
unfoldable pub backend_call : HttpBackend → Text → HttpCall
unfolding query_escape
backend_call b ref = record {
  method = bytes "GET";
  url = b.base_url ++ (bytes "?ref=" ++ query_escape ref);
  headers =
      if not (is_empty b.token)
      then (bytes "Authorization", bytes "Bearer " ++ b.token) ∷ []
      else [];
  body = [];
}

module _ {E : Type 0} where
  -- A body is read only if the status is 200, and dropped otherwise.
  unfoldable pub backend_secret : ℤ → HttpResponse E → Result (ClientError E) Text
  backend_secret max_size r =
      if not (r.status == 200)
      then err (bad_status r.status)
      else map_err unread (read_body max_size r.body)

  unfoldable pub valid_keeper_ref : Option Reason → Result (SecretError E) (Unit {0})
  valid_keeper_ref none = ok tt
  valid_keeper_ref (some r) = err (bad_ref r)

  -- GetSecret
  unfoldable pub get_http_secret : Http E → HttpBackend → Text → Result (SecretError E) Text
  unfolding backend_call backend_secret valid_keeper_ref
  get_http_secret http b ref =
      valid_keeper_ref (validate_keeper_ref ref)
      >> map_err not_fetched (call http (backend_call b ref) >>= λ r. backend_secret b.max_size r)
