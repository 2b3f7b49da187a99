-- ===== src/Webhook/Agreement.antt =====
-- The webhook and chur-init agree: what the webhook admits, chur-init does not refuse.
use chur.Base.{Option, List, All, ◌≡◌}
use chur.Text.{Text}
use chur.Dict.{Dict}
use chur.EnvName
use chur.Init.{System}
use chur.Init.Outcome.{Outcome}
use chur.Webhook.Pod.{Pod, EnvVar}
use chur.Webhook.Config.{Config}

-- chur-init runs with these variables.
abbrev pub RunsWith : (Text → Text) → List EnvVar → Type 0
RunsWith getenv env = All (λ v. getenv v.name ≡ v.value) env

-- What chur-init reads in the environment of an admitted pod.
pub record Reads {E : Type 0} (sys : System E) (cfg : Config) (provider_name ref mount : Text)
    : Type 0 where
  pub provider_is : sys.getenv EnvName.provider ≡ provider_name
  pub ref_is : sys.getenv EnvName.secret_ref ≡ ref
  pub mount_is : sys.getenv EnvName.mount_path ≡ mount
  pub size_is : sys.getenv EnvName.max_secret_size ≡ cfg.max_secret_size
