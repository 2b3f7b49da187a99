-- ===== src/Webhook/ProviderEnv.antt =====
-- The annotation chur.io/provider-env: reservedInitEnv, validProviderEnvKey and parseProviderEnv
-- (internal/webhook/mutator.go). The JSON decoder is a parameter; it gives the entries of the map
-- in the order in which `range` visits them.
pub mod Sorted
pub mod Keys
pub mod Accepted
use chur.Base.{
  ℕ, ◌+◌, Bool, true, false, not, ◌&&◌, ◌||◌, Option, none, some, List, [], ◌∷◌, ltb, leb, ◌==◌,
  within, if◌then◌else◌, length, Result, ok, err, ◌>>=◌,
}
use chur.Text.{Text, bytes, text_lt, has_prefix, is_empty}
use chur.Text.Runes.{runes}
use chur.Dict.{Dict, mem_key}
use chur.EnvName
use chur.Webhook.Pod.{EnvVar}
use chur.Webhook.Config.{
  MutateError, validation, bad_env_json, bad_env_key, reserved_env_key, long_env_value,
}

-- The keys of the map reservedInitEnv.
unfoldable pub reserved_init_env : List Text
reserved_init_env =
    EnvName.provider ∷ EnvName.secret_ref ∷ EnvName.secret_key ∷ EnvName.mount_path
    ∷ EnvName.max_secret_size ∷ EnvName.local_base_path ∷ EnvName.keeper_url
    ∷ EnvName.keeper_tls_cert_path ∷ EnvName.keeper_tls_key_path ∷ EnvName.keeper_server_ca
    ∷ EnvName.keeper_skip_verify ∷ EnvName.keeper_client_max_secret_size ∷ []

-- The test on a rune of a key, negated as in the source.
unfoldable pub is_bad_key_rune : ℕ → Bool
is_bad_key_rune r = not (r == b'_') && (ltb r b'A' || ltb b'Z' r) && (ltb r b'0' || ltb b'9' r)

unfoldable pub any_bad_key_rune : List (ℕ × ℕ) → Bool
unfolding is_bad_key_rune
any_bad_key_rune [] = false
any_bad_key_rune ((i, r) ∷ rest) = is_bad_key_rune r || any_bad_key_rune rest

unfoldable pub valid_provider_env_key : Text → Bool
unfolding any_bad_key_rune
valid_provider_env_key k =
    if length k == 0 || ltb 128 (length k)
    then false
    else if any_bad_key_rune (runes k)
    then false
    else has_prefix k (bytes "CHUR_")

-- The checks on one entry of the map.
unfoldable pub check_entry : Text → Text → Result MutateError EnvVar
check_entry k v =
    if not (valid_provider_env_key k)
    then err (validation (bad_env_key k))
    else if mem_key k reserved_init_env
    then err (validation (reserved_env_key k))
    else if ltb 4096 (length v)
    then err (validation (long_env_value k))
    else ok (record { name = k; value = v })

-- The loop over the map, whose entries come in any order.
unfoldable pub check_entries : Dict Text → Result MutateError (List EnvVar)
check_entries [] = ok []
check_entries ((k, v) ∷ rest) = do e ← check_entry k v; es ← check_entries rest; ok (e ∷ es)

-- sort.Slice by name. The names are distinct, so every sorting algorithm gives this list.
unfoldable pub insert_by_name : EnvVar → List EnvVar → List EnvVar
insert_by_name e [] = e ∷ []
insert_by_name e (x ∷ xs) = if text_lt x.name e.name then x ∷ insert_by_name e xs else e ∷ x ∷ xs

unfoldable pub sort_by_name : List EnvVar → List EnvVar
unfolding insert_by_name
sort_by_name [] = []
sort_by_name (e ∷ es) = insert_by_name e (sort_by_name es)

-- The result of the decoder; `none` is its error.
unfoldable pub decoded_env : Option (Dict Text) → Result MutateError (List EnvVar)
unfolding check_entries check_entry valid_provider_env_key sort_by_name
decoded_env none = err (validation bad_env_json)
decoded_env (some extra) = do es ← check_entries extra; ok (sort_by_name es)

unfoldable pub parse_provider_env :
    (Text → Option (Dict Text)) → Text → Result MutateError (List EnvVar)
unfolding decoded_env
parse_provider_env unmarshal annotation =
    if is_empty annotation then ok [] else decoded_env (unmarshal annotation)
