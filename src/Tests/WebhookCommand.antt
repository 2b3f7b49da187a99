-- ===== src/Tests/WebhookCommand.antt =====
-- The webhook's command in a concrete environment.
use chur.Base.{ℕ, Bool, true, false, Option, none, some, List, [], ◌∷◌, ◌≡◌, refl, Result, ok, err}
use chur.Text.{Text, bytes}
use chur.Tests.Clients.{crypto}
use chur.Tests.Commands.{lib, files, no_env, empty_file}
use chur.Webhook.Config.{Config, default_config}
use chur.Webhook.Command.{Cluster, command_config}
use chur.Webhook.Command.WellFormed.{IsCommandConfig, command_config-IsCommandConfig}
use chur.Webhook.Command.Start.{Node}
use chur.Webhook.Command.Start.Secured.{IsSecured, run-IsSecured}
use chur.Webhook.Command.Start

-- A cluster without any variable set.
abbrev pub cluster : Cluster
cluster = record {
  getenv = no_env;
  version = bytes "dev";
  parse_quantity = λ v. none;
  is_dns1123_label = λ ns. true;
}

pub webhook_configured : command_config cluster ≡ ok default_config
unfolding command_config chur.Text.split chur.Text.text_eq chur.Text.Trim.trim_space default_config
    chur.ByteSize.parse chur.Text.Trim.has_suffix chur.Base.Int.wrap_int64 chur.Text.Runes.runes
webhook_configured = refl

command_config-IsCommandConfig_example : IsCommandConfig cluster default_config
command_config-IsCommandConfig_example = command_config-IsCommandConfig cluster webhook_configured

abbrev node : Node ℕ ℕ ℕ
node = record {
  cluster = cluster;
  new_server = λ cfg. none;
  listen = λ addr. none;
  read_file = empty_file;
  not_exist = λ path. false;
  serve = λ cfg tls cert key. none;
}

webhook_exits : (Start.run crypto lib files node).0 ≡ 0
unfolding Start.run chur.Text.text_eq chur.Tls.webhook_tls_config command_config chur.Text.split
    chur.Text.Trim.trim_space default_config chur.ByteSize.parse chur.Text.Trim.has_suffix
    chur.Base.Int.wrap_int64 chur.Text.Runes.runes
webhook_exits = refl

run-IsSecured_example :
    (cfg : Config) × (command_config cluster ≡ ok cfg) × IsSecured crypto lib files node cfg
run-IsSecured_example = run-IsSecured crypto lib files node webhook_exits
