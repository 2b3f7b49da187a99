-- ===== src/Tests/Injection.antt =====
-- The mutator's patches, applied to concrete pods.
use chur.Base.{some, [], ◌∷◌, ◌≡◌, refl, ◌≢◌, inl}
use chur.Base.Int.{pos}
use chur.Text.{bytes}
use chur.Webhook.Config.{default_config, provider_keeper}
use chur.Webhook.Volumes.{patch_volumes, keeper_volume}
use chur.Webhook.JsonPatch.{apply_all}
use chur.Webhook.Applied.Volumes.{apply-patch_volumes_lost}
use chur.Webhook.Applied.Whole.{injected, apply-collect_patches}
use chur.Tests.ApiServer.{api_server}
use chur.Tests.Webhook.{web, bare, web_env, web_patches, mounted}

web_has_volumes : web.volumes ≢ []
web_has_volumes h = cc

apply-collect_patches_example :
    apply_all api_server web web_patches
    ≡ some (injected web default_config (bytes "env") (bytes "/secrets") (pos 1001) web_env)
apply-collect_patches_example =
    apply-collect_patches api_server web default_config (bytes "env") (bytes "/secrets") (pos 1001)
      web_env (inl web_has_volumes)

cert_is_set : mounted.keeper_client_cert_secret_name ≢ []
cert_is_set h = cc

apply-patch_volumes_lost_example :
    apply_all api_server bare (patch_volumes bare mounted provider_keeper)
    ≡ some (record bare { volumes = keeper_volume mounted ∷ [] })
apply-patch_volumes_lost_example = apply-patch_volumes_lost api_server bare mounted refl cert_is_set
