-- ===== src/Webhook/InitEnv/Names.antt =====
-- The names that the webhook sets for chur-init: all of them reserved, none of them twice.
use chur.Base.{Bool, true, false, not, ◌&&◌, List, [], ◌∷◌, ◌++◌, ◌≡◌, refl, ap, ◌≢◌, arith, All}
use chur.Text.{Text}
use chur.Text.Laws.{text_eq_refl}
use chur.Dict.{mem_key}
use chur.EnvName
use chur.Webhook.Pod.{EnvVar}
use chur.Webhook.ProviderEnv.{reserved_init_env}
use chur.Webhook.ProviderEnv.Sorted.{IsDistinct, names}

-- The first list is the second with some elements left out.
pub data Sub : List Text → List Text → Type 0 where
  done : Sub [] []
  keep : (k : Text) {xs ys : List Text} → Sub xs ys → Sub (k ∷ xs) (k ∷ ys)
  leave : (k : Text) {xs ys : List Text} → Sub xs ys → Sub xs (k ∷ ys)

pub Sub-append : {xs ys xs' ys' : List Text} → Sub xs ys → Sub xs' ys' → Sub (xs ++ xs') (ys ++ ys')
Sub-append done t = t
Sub-append (keep k s) t = keep k (Sub-append s t)
Sub-append (leave k s) t = leave k (Sub-append s t)

pub All-Sub : (P : Text → Type 0) {xs ys : List Text} → Sub xs ys → All P ys → All P xs
All-Sub P done h = tt
All-Sub P (keep k s) h = (h.0, All-Sub P s h.1)
All-Sub P (leave k s) h = All-Sub P s h.1

pub IsDistinct-Sub : {xs ys : List Text} → Sub xs ys → IsDistinct ys → IsDistinct xs
IsDistinct-Sub done h = tt
IsDistinct-Sub (keep k s) h = (All-Sub (λ j. k ≢ j) s h.0, IsDistinct-Sub s h.1)
IsDistinct-Sub (leave k s) h = IsDistinct-Sub s h.1

-- The names that the webhook sets, in the order of the list.
unfoldable pub managed : List Text
managed =
    EnvName.provider ∷ EnvName.secret_ref ∷ EnvName.mount_path ∷ EnvName.max_secret_size
    ∷ EnvName.local_base_path ∷ EnvName.secret_key ∷ EnvName.keeper_url
    ∷ EnvName.keeper_tls_cert_path ∷ EnvName.keeper_tls_key_path ∷ EnvName.keeper_server_ca
    ∷ EnvName.keeper_client_max_secret_size ∷ EnvName.keeper_skip_verify ∷ []

-- No name twice, as a test.
distinct_test : List Text → Bool
distinct_test [] = true
distinct_test (k ∷ ks) = not (mem_key k ks) && distinct_test ks

not_mem : (k : Text) (ks : List Text) → mem_key k ks ≡ false → All (λ j. k ≢ j) ks
unfolding mem_key
not_mem k [] h = tt
not_mem k (j ∷ ks) h = ((λ e. ground (arith, text_eq_refl j)), not_mem k ks (ground arith))

distinct_test_sound : (ks : List Text) → distinct_test ks ≡ true → IsDistinct ks
unfolding distinct_test
distinct_test_sound [] h = tt
distinct_test_sound (k ∷ ks) h =
    (not_mem k ks (ground arith), distinct_test_sound ks (ground arith))

all_reserved_test : List Text → Bool
all_reserved_test [] = true
all_reserved_test (k ∷ ks) = mem_key k reserved_init_env && all_reserved_test ks

abbrev pub IsReserved : Text → Type 0
IsReserved k = mem_key k reserved_init_env ≡ true

All-IsReserved_sound : (ks : List Text) → all_reserved_test ks ≡ true → All IsReserved ks
unfolding all_reserved_test
All-IsReserved_sound [] h = tt
All-IsReserved_sound (k ∷ ks) h = (ground arith, All-IsReserved_sound ks (ground arith))

pub managed-IsDistinct : IsDistinct managed
managed-IsDistinct = distinct_test_sound managed (
    unfold managed distinct_test mem_key EnvName.provider EnvName.secret_ref EnvName.mount_path
      EnvName.max_secret_size EnvName.local_base_path EnvName.secret_key EnvName.keeper_url
      EnvName.keeper_tls_cert_path EnvName.keeper_tls_key_path EnvName.keeper_server_ca
      EnvName.keeper_client_max_secret_size EnvName.keeper_skip_verify in
    refl)

pub managed-IsReserved : All IsReserved managed
managed-IsReserved = All-IsReserved_sound managed (
    unfold managed all_reserved_test mem_key reserved_init_env EnvName.provider EnvName.secret_ref
      EnvName.mount_path EnvName.max_secret_size EnvName.local_base_path EnvName.secret_key
      EnvName.keeper_url EnvName.keeper_tls_cert_path EnvName.keeper_tls_key_path
      EnvName.keeper_server_ca EnvName.keeper_client_max_secret_size EnvName.keeper_skip_verify in
    refl)

pub names-append : (xs ys : List EnvVar) → names (xs ++ ys) ≡ names xs ++ names ys
names-append [] ys = refl
names-append (x ∷ xs) ys = ap (◌∷◌ x.name) (names-append xs ys)
