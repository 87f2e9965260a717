-- ===== src/Config.antt =====
-- internal/config/config.go: the configuration and its defaults. The package viper reads and merges
-- them, and is a parameter.
use svidmint.Base.{String, ◌==◌, Bool, Option, none, some, List, [], ◌∷◌, if◌then◌else◌}
use svidmint.Ca.Federation.{FederationBundle}

-- `TLSConfig`
pub record TlsFiles : Type 0 where
  pub cert_file : String
  pub key_file : String

pub record ServerConfig : Type 0 where
  pub listen : String
  pub tls : TlsFiles

pub record CaConfig : Type 0 where
  pub type : String
  pub key_type : String
  pub root_key_path : String
  pub root_cert_path : String
  pub signing_ttl : String
  pub default_svid_ttl : String
  pub max_svid_ttl : String

pub record StorageConfig : Type 0 where
  pub type : String
  pub dsn : String

pub record AwsLambdaSettings : Type 0 where
  pub enabled : Bool
  pub allowed_account_ids : List String
  pub allowed_regions : List String

pub record CloudflareTeamSettings : Type 0 where
  pub name : String
  pub certs_url : String

pub record CloudflareWorkersSettings : Type 0 where
  pub enabled : Bool
  pub teams : List CloudflareTeamSettings

pub record GithubOidcSettings : Type 0 where
  pub enabled : Bool
  pub allowed_repositories : List String
  pub issuer : String

pub record DenoOidcSettings : Type 0 where
  pub enabled : Bool
  pub issuer : String

-- `none` is a section that the file does not have.
pub record AttestorsConfig : Type 0 where
  pub aws_lambda : Option AwsLambdaSettings
  pub cloudflare_workers : Option CloudflareWorkersSettings
  pub github_oidc : Option GithubOidcSettings
  pub deno_oidc : Option DenoOidcSettings

pub record LoggingConfig : Type 0 where
  pub level : String
  pub format : String

pub record MetricsConfig : Type 0 where
  pub enabled : Bool
  pub listen : String

pub record FederationConfig : Type 0 where
  pub bundles : List FederationBundle

pub record Config : Type 0 where
  pub server : ServerConfig
  pub trust_domain : String
  pub ca : CaConfig
  pub storage : StorageConfig
  pub attestors : AttestorsConfig
  pub logging : LoggingConfig
  pub metrics : MetricsConfig
  pub federation : FederationConfig

-- The package viper: the settings of a file, and the configuration from the defaults, the variables
-- of the environment with a prefix, and the settings that were read.
pub record Viper (Settings : Type 0) : Type 0 where
  pub read_in_config : String → Option Settings
  pub unmarshal : List (String × String) → String → Option Settings → Option Config

-- the calls of `SetDefault`
abbrev pub defaults : List (String × String)
defaults =
    ("server.listen", ":8443")
    ∷ ("ca.type", "self-signed")
    ∷ ("ca.key_type", "ec-p256")
    ∷ ("ca.signing_ttl", "24h")
    ∷ ("ca.default_svid_ttl", "5m")
    ∷ ("ca.max_svid_ttl", "1h")
    ∷ ("storage.type", "sqlite")
    ∷ ("storage.dsn", "svidmint.db")
    ∷ ("logging.level", "info")
    ∷ ("logging.format", "json")
    ∷ ("metrics.listen", ":9090")
    ∷ ("trust_domain", "")
    ∷ []

module _ {Settings : Type 0} (viper : Viper Settings) where
  abbrev pub with_file : Option Settings → Option Config
  with_file none = none
  with_file (some settings) = viper.unmarshal defaults "SMINT" (some settings)

  -- `Load`; an error is `none`.
  unfoldable pub load : String → Option Config
  load path =
      if path == ""
      then viper.unmarshal defaults "SMINT" none
      else with_file (viper.read_in_config path)
