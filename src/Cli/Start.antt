-- ===== src/Cli/Start.antt =====
-- internal/cli/server.go: how `server start` builds a server from the configuration, the files, the
-- database and the flags; and internal/entry/loader.go.
pub mod Registered
pub mod Enabled
pub mod Preloaded
pub mod Ready
use svidmint.Base.{
  String, ◌==◌, Bool, true, false, not, Option, none, some, List, [], ◌∷◌, ◌++◌, map, Result, ok,
  err, ◌>>=◌, ◌>>◌, guard, or_err, wrap_err, if◌then◌else◌,
}
use svidmint.Config
use svidmint.Config.{
  Config, AttestorsConfig, AwsLambdaSettings, CloudflareWorkersSettings, CloudflareTeamSettings,
  GithubOidcSettings, DenoOidcSettings, Viper, load,
}
use svidmint.Attestor.Registry.{Attestor, aws_sts, github_oidc, cloudflare_workers, deno_oidc}
use svidmint.Attestor.Github.{new_github}
use svidmint.Attestor.Cloudflare.{Team, new_cloudflare}
use svidmint.Attestor.Deno.{new_deno}
use svidmint.Ca.{Crypto}
use svidmint.Ca.SelfSigned.{SelfSignedCa}
use svidmint.Ca.SelfSigned.Disk.{Files, Encoding}
use svidmint.Ca.SelfSigned.Create.{SelfSignedCaConfig, StartDraws, new_self_signed_ca}
use svidmint.Entry.{RegistrationEntry}
use svidmint.Entry.SqlStore.{Sql, SqlError, create}
use svidmint.Entry.SqlStore.Open.{Driver, new_sqlite_store}
use svidmint.Server.{Server}
use svidmint.Cli.Types.{
  CliError, loading_config, trust_domain_required, marshaling_config, initializing_ca,
  initializing_store, loading_entries,
}

abbrev pub aws_part : Option AwsLambdaSettings → List Attestor
aws_part none = []
aws_part (some a) =
    if a.enabled
    then aws_sts (record {
      allowed_account_ids = a.allowed_account_ids;
      allowed_regions = a.allowed_regions;
      sts_endpoint_override = "";
    })
      ∷ []
    else []

abbrev pub team_of : CloudflareTeamSettings → Team
team_of t = record { name = t.name; certs_url = t.certs_url }

abbrev pub cloudflare_part : Option CloudflareWorkersSettings → List Attestor
cloudflare_part none = []
cloudflare_part (some a) =
    if a.enabled then cloudflare_workers (new_cloudflare (map team_of a.teams)) ∷ [] else []

abbrev pub github_part : Option GithubOidcSettings → List Attestor
github_part none = []
github_part (some a) =
    if a.enabled
    then github_oidc (
        new_github (record {
          allowed_repositories = a.allowed_repositories;
          issuer = a.issuer;
          jwks_endpoint_override = "";
        }))
      ∷ []
    else []

abbrev pub deno_part : Option DenoOidcSettings → List Attestor
deno_part none = []
deno_part (some a) =
    if a.enabled
    then deno_oidc (new_deno (record { allowed_issuers = a.issuer ∷ []; jwks_url_override = "" }))
      ∷ []
    else []

-- `buildAttestorRegistry`
unfoldable pub build_attestor_registry : AttestorsConfig → List Attestor
build_attestor_registry a =
    aws_part a.aws_lambda
    ++ (cloudflare_part a.cloudflare_workers
        ++ (github_part a.github_oidc ++ deno_part a.deno_oidc))

-- `LoadEntriesFromFile`: the file's text, and the package yaml
unfoldable pub load_entries_from_file :
    (String → Option String)
    → (String → Option (List RegistrationEntry))
    → String
    → Option (List RegistrationEntry)
load_entries_from_file read_file unmarshal path = elim (read_file path) [
  | none ↦ none
  | some text ↦ unmarshal text
]

-- The flags of `server start`; `config` is that of the command or of the root command.
pub record StartFlags : Type 0 where
  pub config : String
  pub root_config : String
  pub listen : String
  pub trust_domain : String
  pub db : String
  pub entries : String

abbrev pub or_given : String → String → String
or_given old given = if given == "" then old else given

-- the overrides
unfoldable pub override : StartFlags → Config → Config
override flags cfg = record cfg {
  server = record cfg.server { listen = or_given cfg.server.listen flags.listen };
  trust_domain = or_given cfg.trust_domain flags.trust_domain;
  storage = record cfg.storage { dsn = or_given cfg.storage.dsn flags.db };
}

abbrev pub ca_config : Config → SelfSignedCaConfig
ca_config cfg = record {
  trust_domain = cfg.trust_domain;
  key_type = cfg.ca.key_type;
  root_key_path = cfg.ca.root_key_path;
  root_cert_path = cfg.ca.root_cert_path;
  signing_ttl = cfg.ca.signing_ttl;
  default_ttl = cfg.ca.default_svid_ttl;
  max_ttl = cfg.ca.max_svid_ttl;
}

module _ {Settings : Type 0} (viper : Viper Settings) where
  -- `loadEffectiveConfig`; `missing` tells which files do not exist.
  unfoldable pub load_effective_config : (String → Bool) → StartFlags → Result CliError Config
  load_effective_config missing flags =
      let path = or_given flags.root_config flags.config in
      or_err (load viper (if missing path then "" else path)) loading_config

module _ {D : Type 0} (sql : Sql D) where
  abbrev pub after_create :
      RegistrationEntry → Result SqlError (Unit {0}) × D → List String × D → List String × D
  after_create e (ok _, _) rest = rest
  after_create e (err _, _) (failed, d) = (e.id ∷ failed, d)

  -- the loop that preloads entries: the IDs of those that failed, which are only logged
  unfoldable pub preload : D → List RegistrationEntry → List String × D
  preload d [] = ([], d)
  preload d (e ∷ entries) =
      let created = create sql d e in after_create e created (preload created.1 entries)

-- What `server start` has built when it starts to listen.
pub record Started (D : Type 0) : Type 0 where
  pub config : Config
  pub server : Server
  pub store : D
  pub not_preloaded : List String

module _ {D : Type 0} (c : Crypto) (enc : Encoding) (driver : Driver D) (sql : Sql D) where
  abbrev pub preload_file :
      (String → Option (List RegistrationEntry)) → String → D → Result CliError (List String × D)
  preload_file load_entries path d =
      if path == ""
      then ok ([], d)
      else or_err (load_entries path) loading_entries >>= λ entries. ok (preload sql d entries)

  abbrev pub with_ca :
      (String → Option (List RegistrationEntry))
      → StartFlags
      → Config
      → Result CliError SelfSignedCa
      → Result CliError (Started D)
  with_ca load_entries flags cfg ca_impl = do
    ca ← ca_impl
    store ← wrap_err initializing_store (new_sqlite_store driver cfg.storage.dsn)
    loaded ← preload_file load_entries flags.entries store
    ok (record {
      config = cfg;
      server = record { ca = ca; attestors = build_attestor_registry cfg.attestors; metrics = [] };
      store = loaded.1;
      not_preloaded = loaded.0;
    })

  abbrev pub started_with :
      (String → Option (List RegistrationEntry))
      → StartFlags
      → StartDraws
      → Files
      → Result CliError Config
      → Result CliError (Started D) × Files
  started_with load_entries flags draws files (err e) = (err e, files)
  started_with load_entries flags draws files (ok cfg) =
      let (r, files') = new_self_signed_ca c enc (ca_config cfg) draws files in
      (with_ca load_entries flags cfg (wrap_err initializing_ca r), files')

  -- `runServerStart` up to `srv.Start`; the logger is made.
  unfoldable pub run_server_start :
      (String → Option (List RegistrationEntry))
      → StartFlags
      → StartDraws
      → Files
      → Result CliError Config
      → Result CliError (Started D) × Files
  unfolding override build_attestor_registry preload
  run_server_start load_entries flags draws files loaded =
      started_with load_entries flags draws files (
        loaded >>= λ cfg.
        guard (not ((override flags cfg).trust_domain == "")) trust_domain_required
        >> ok (override flags cfg))

-- `runServerConfig`: what it prints, with the package yaml
unfoldable pub run_server_config :
    (Config → Option String) → Result CliError Config → Result CliError String
run_server_config marshal loaded = do cfg ← loaded; or_err (marshal cfg) marshaling_config
