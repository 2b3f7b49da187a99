-- ===== src/Webhook/Applied/Again.antt =====
-- Mutating a mutated pod changes nothing more.
use chur.Base.{true, ◌||◌, List, [], ◌∷◌, ◌++◌, ◌≡◌, refl, arith}
use chur.Text.{Text, text_eq}
use chur.Text.Laws.{text_eq_refl}
use chur.Webhook.Pod.{Volume, Pod}
use chur.Webhook.Config.{Config, vol_name_secrets, vol_name_local, vol_name_keeper, provider_local}
use chur.Webhook.Volumes.{volume_exists, secrets_volume, local_volume, keeper_volume}
use chur.Webhook.Applied.Volumes.{
  missing_volumes, needs_secrets, needs_local, needs_keeper, uses_keeper_volume,
}

pub volume_exists-append :
    (xs ys : List Volume) (name : Text)
    → volume_exists (xs ++ ys) name ≡ (volume_exists xs name || volume_exists ys name)
unfolding volume_exists
volume_exists-append [] ys name = refl
volume_exists-append (x ∷ xs) ys name = ground (arith, volume_exists-append xs ys name)

module _ (pod : Pod) (cfg : Config) (provider_name : Text) where
  missing_secrets :
      needs_secrets pod ≡ true
      → volume_exists (missing_volumes pod cfg provider_name) vol_name_secrets ≡ true
  unfolding missing_volumes volume_exists secrets_volume
  missing_secrets h = ground (arith, text_eq_refl vol_name_secrets)

  missing_local :
      needs_local pod provider_name ≡ true
      → volume_exists (missing_volumes pod cfg provider_name) vol_name_local ≡ true
  unfolding missing_volumes volume_exists local_volume
  missing_local h = rw (h, volume_exists-append) (ground (arith, text_eq_refl vol_name_local))

  missing_keeper :
      needs_keeper pod cfg provider_name ≡ true
      → volume_exists (missing_volumes pod cfg provider_name) vol_name_keeper ≡ true
  unfolding missing_volumes volume_exists keeper_volume
  missing_keeper h = rw h (simp volume_exists-append (ground (arith, text_eq_refl vol_name_keeper)))

  abbrev all_volumes : List Volume
  all_volumes = pod.volumes ++ missing_volumes pod cfg provider_name

  -- The injected pod has the secrets volume, the local one if the provider is local, and the
  -- keeper's certificate if it is keeper with one configured.
  pub has_secrets : volume_exists all_volumes vol_name_secrets ≡ true
  has_secrets =
      rw (volume_exists-append pod.volumes (missing_volumes pod cfg provider_name) vol_name_secrets)
        (ground (arith, missing_secrets))

  pub has_local :
      text_eq provider_name provider_local ≡ true → volume_exists all_volumes vol_name_local ≡ true
  has_local l =
      rw (volume_exists-append pod.volumes (missing_volumes pod cfg provider_name) vol_name_local)
        (ground (arith, missing_local))

  pub has_keeper :
      uses_keeper_volume cfg provider_name ≡ true → volume_exists all_volumes vol_name_keeper ≡ true
  has_keeper k =
      rw (volume_exists-append pod.volumes (missing_volumes pod cfg provider_name) vol_name_keeper)
        (ground (arith, missing_keeper))
