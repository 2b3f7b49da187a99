-- ===== src/Tests/Commands.antt =====
-- The keeper's command in a concrete environment.
use chur.Base.{ℕ, none, some, [], ◌∷◌, ◌++◌, ◌≡◌, ◌⊎◌, refl, Result, ok, err}
use chur.Text.{Text, bytes, is_empty}
use chur.Tls.{Crypto, version_tls13, require_and_verify_client_cert, no_client_cert}
use chur.Tls.SelfSigned.{CertLib, TempFiles, generate_temp_cert}
use chur.Tls.Secure.{IsServerConfig}
use chur.Keeper.Config.{Config, self_signed, mtls, default_config, config_from_env}
use chur.Keeper.Config.WellFormed.{IsWellFormed, config_from_env-IsWellFormed}
use chur.Keeper.ServerTls.{OwnPair, ServerTls, keeper_tls_config}
use chur.Keeper.ServerTls.Cleaned.{keeper_tls_config-IsServerConfig}
use chur.Keeper.Command.{World, Backend, run}
use chur.Keeper.Command.Balanced.{IsBalanced, run-IsBalanced}
use chur.Keeper.Command.Serves.{IsBackend, Serves, run-Serves}
use chur.Tests.Clients.{crypto}

-- A library that signs everything, and a file system on which everything succeeds.
abbrev pub lib : CertLib ℕ ℕ
lib = record {
  generate_key = ok 1;
  random_below = λ n. ok 42;
  now = 1000;
  parse_ip = λ host. none;
  create_certificate = λ t key. ok (bytes "der");
  marshal_key = λ key. ok (bytes "key");
  encode_pem = λ label der. ok (label ++ der);
}

abbrev pub files : TempFiles ℕ
files = record { temp_dir = ok (bytes "/tmp/chur-tls-1"); failure = λ op. none }

-- One on which nothing can be written or removed.
abbrev full : TempFiles ℕ
full = record { temp_dir = ok (bytes "/tmp/chur-tls-1"); failure = λ op. some 28 }

abbrev pub no_env : Text → Text
no_env name = []

abbrev keeper_config : Config
keeper_config = record default_config { backend_type = bytes "filesystem" }

keeper_configured : config_from_env no_env ≡ ok keeper_config
unfolding config_from_env chur.Text.text_eq default_config
keeper_configured = refl

config_from_env-IsWellFormed_example : IsWellFormed no_env keeper_config
config_from_env-IsWellFormed_example = config_from_env-IsWellFormed no_env keeper_configured

abbrev mtls_config : Config
mtls_config = record default_config {
  tls_mode = mtls;
  tls_cert_file = bytes "/tls.crt";
  tls_key_file = bytes "/tls.key";
  client_ca_file = bytes "/ca.crt";
}

abbrev pub empty_file : Text → Result ℕ Text
empty_file path = ok []

-- The client CA file is there, and empty.
abbrev open_to_all : ServerTls ℕ ℕ
open_to_all = record {
  config = record {
    min_version = version_tls13;
    certificates = 1 ∷ [];
    client_auth = no_client_cert;
    client_cas = none;
  };
  cleanup = none;
}

mtls_without_ca :
    (keeper_tls_config crypto lib files no_env empty_file mtls_config).0 ≡ ok open_to_all
unfolding keeper_tls_config chur.Tls.server_tls_config default_config
mtls_without_ca = refl

keeper_tls_config-IsServerConfig_example :
    ((mtls_config.tls_mode ≡ self_signed)
      × ((p : OwnPair) × IsServerConfig crypto [] p.cert_file p.key_file open_to_all.config))
    ⊎ ((mtls_config.tls_mode ≡ mtls)
        × ((ca : Text) × (empty_file mtls_config.client_ca_file ≡ ok ca)
            × IsServerConfig crypto ca mtls_config.tls_cert_file mtls_config.tls_key_file
                open_to_all.config))
keeper_tls_config-IsServerConfig_example =
    keeper_tls_config-IsServerConfig crypto lib files no_env empty_file mtls_config mtls_without_ca

abbrev world : World ℕ ℕ ℕ
world = record {
  getenv = no_env;
  read_file = empty_file;
  stat = λ path. none;
  open_root = λ path. none;
  parse_url = λ url. err 1;
  listen = λ addr. none;
  serve = λ cfg b tls. none;
}

run-IsBalanced_example : IsBalanced files.temp_dir (run crypto lib files world).1
run-IsBalanced_example = run-IsBalanced crypto lib files world

keeper_exits : (run crypto lib files world).0 ≡ 0
unfolding run config_from_env chur.Text.text_eq default_config keeper_tls_config
    chur.Tls.server_tls_config generate_temp_cert chur.Tls.SelfSigned.template
    chur.Providers.new_with_max_size
keeper_exits = refl

run-Serves_example :
    (cfg : Config) × (config_from_env no_env ≡ ok cfg)
    × ((b : Backend) × IsBackend crypto lib files world cfg b × Serves crypto lib files world cfg b)
run-Serves_example = run-Serves crypto lib files world keeper_exits
