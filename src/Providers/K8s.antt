-- ===== src/Providers/K8s.antt =====
-- The k8s provider of chur-init (internal/providers/k8s/k8s.go). The Kubernetes client, the file of
-- the namespace and the choice of `select` are parameters; the data of a secret is a map.
pub mod Chosen
use chur.Base.{
  ℕ, Bool, true, false, not, Option, none, some, List, [], ◌∷◌, if◌then◌else◌, Result, ok, err,
  ◌>>=◌, ◌>>◌, map_err,
}
use chur.Text.{Text, bytes, is_empty}
use chur.Dict.{Dict, lookup}
use chur.Validate.{Reason, validate_secret_ref, validate_secret_key}

-- K8sProvider
pub record K8sProvider : Type 0 where
  pub namespace : Text
  pub secret_key : Text

pub data K8sError (E : Type 0) : Type 0 where
  bad_ref bad_key : Reason → K8sError E
  no_cluster no_client not_found no_namespace cancelled : E → K8sError E
  no_data several_keys : K8sError E
  no_key : Text → K8sError E

-- The namespace from its file, unless it is empty.
unfoldable pub namespace_of : Text → Text
namespace_of content = if is_empty content then bytes "default" else content

module _ {E : Type 0} where
  unfoldable pub valid_name : (Reason → K8sError E) → Option Reason → Result (K8sError E) (Unit {0})
  valid_name cause none = ok tt
  valid_name cause (some r) = err (cause r)

  -- The value of the selected key.
  unfoldable pub value_of : Text → Option Text → Result (K8sError E) Text
  value_of key none = err (no_key key)
  value_of key (some value) = ok value

  -- The value, if the data has exactly one.
  unfoldable pub only_value : Dict Text → Result (K8sError E) Text
  only_value [] = err several_keys
  only_value ((k, v) ∷ []) = ok v
  only_value (e ∷ f ∷ rest) = err several_keys

  -- What GetSecret takes of the data.
  unfoldable pub choose : Text → Dict Text → Result (K8sError E) Text
  unfolding value_of only_value lookup
  choose key [] = err no_data
  choose key (e ∷ data_rest) =
      if not (is_empty key)
      then value_of key (lookup key (e ∷ data_rest))
      else only_value (e ∷ data_rest)

  -- GetSecret; `get_data` asks for a secret in a namespace.
  unfoldable pub get_k8s_secret :
      (Text → Text → Result E (Dict Text)) → K8sProvider → Text → Result (K8sError E) Text
  unfolding valid_name choose
  get_k8s_secret get_data p ref = do
    valid_name bad_ref (validate_secret_ref ref)
    entries ← map_err not_found (get_data p.namespace ref)
    choose p.secret_key entries

  -- The factory that init registers. `file` is the result of the file's read if it came before the
  -- end of the context, and `ctx_err` the context's error.
  unfoldable pub new_k8s :
      Option E → Option E → Option (Result E Text) → E → Text → Result (K8sError E) K8sProvider
  unfolding valid_name namespace_of
  new_k8s config_err client_err file ctx_err secret_key = do
    elim config_err [ none ↦ ok tt | some e ↦ err (no_cluster e) ]
    elim client_err [ none ↦ ok tt | some e ↦ err (no_client e) ]
    content ← elim file [ none ↦ err (cancelled ctx_err) | some r ↦ map_err no_namespace r ]
    valid_name bad_key (validate_secret_key secret_key)
    ok (record { namespace = namespace_of content; secret_key = secret_key })
