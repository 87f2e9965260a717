-- ===== src/Tests/Starting.antt =====
-- `server start` (internal/cli/server.go) at concrete inputs.
use svidmint.Base.{false, [], ◌∷◌, Result, ok}
use svidmint.Config.{Config}
use svidmint.Cli.{CliError}
use svidmint.Cli.Start.{StartFlags, Started, build_attestor_registry}
use svidmint.Tests.Restart.{started}
use svidmint.Tests.Statements.{Db, one_entry}
use svidmint.Tests.Commands.{deno_only}

abbrev file_config : Config
file_config = record {
  server = record { listen = ":8443"; tls = record { cert_file = ""; key_file = "" } };
  trust_domain = "";
  ca = record {
    type = "self_signed";
    key_type = "ec_p256";
    root_key_path = "root.key";
    root_cert_path = "root.crt";
    signing_ttl = "1h";
    default_svid_ttl = "1h";
    max_svid_ttl = "24h";
  };
  storage = record { type = "sqlite"; dsn = "svidmint.db" };
  attestors = deno_only;
  logging = record { level = "info"; format = "json" };
  metrics = record { enabled = false; listen = "" };
  federation = record { bundles = [] };
}

abbrev start_flags : StartFlags
start_flags = record {
  config = "";
  root_config = "svidmint.yaml";
  listen = "";
  trust_domain = "td";
  db = "";
  entries = "entries.yaml";
}

abbrev ready : Started Db
ready = record {
  config = record file_config { trust_domain = "td" };
  server = record { ca = started; attestors = build_attestor_registry deno_only; metrics = [] };
  store = one_entry;
  not_preloaded = "batch" ∷ [];
}

abbrev loaded_config : Result CliError Config
loaded_config = ok file_config
