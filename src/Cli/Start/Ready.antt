-- ===== src/Cli/Start/Ready.antt =====
-- What `server start` (internal/cli/server.go) has built when it starts to listen.
use svidmint.Base.{String, ◌≡◌, ◌≢◌, Option, some, List, [], ok, All, ◌⊎◌}
use svidmint.Config.{Config}
use svidmint.Ca.{Crypto}
use svidmint.Ca.SelfSigned.Disk.{Files, Encoding}
use svidmint.Ca.SelfSigned.Create.{StartDraws, new_self_signed_ca}
use svidmint.Ca.SelfSigned.Configured.{IsConfigured}
use svidmint.Entry.{RegistrationEntry}
use svidmint.Entry.SqlStore.{Sql}
use svidmint.Entry.SqlStore.Open.{Driver, new_sqlite_store}
use svidmint.Entry.SqlStore.Table.{Rows, TableLaws}
use svidmint.Cli.Start.{StartFlags, Started, ca_config, build_attestor_registry}
use svidmint.Cli.Start.Registered.{IsEnabled}
use svidmint.Cli.Start.Preloaded.{IsPreloaded}

-- What became of a setting: the flag's value where the flag was given, and otherwise the old one.
abbrev pub IsGiven : String → String → String → Type 0
IsGiven old given new = ((given ≡ "") × (new ≡ old)) ⊎ ((given ≢ "") × (new ≡ given))

module _ {D : Type 0} (c : Crypto) (enc : Encoding) (driver : Driver D) (sql : Sql D)
    (rows : Rows D) (laws : TableLaws sql rows)
    (load_entries : String → Option (List RegistrationEntry)) (flags : StartFlags)
    (draws : StartDraws) where
  -- The store holds what the entries' file adds to the store that was opened, if there is a file.
  pub data HasEntries (d : D) (loaded : List String × D) : Type 0 where
    no_file : flags.entries ≡ "" → loaded ≡ ([], d) → HasEntries d loaded
    from_file :
        (entries : List RegistrationEntry)
        → load_entries flags.entries ≡ some entries
        → IsPreloaded sql rows laws d entries loaded
        → HasEntries d loaded

  pub record IsReady (cfg : Config) (files files' : Files) (started : Started D) : Type 0 where
    pub listen : IsGiven cfg.server.listen flags.listen started.config.server.listen
    pub trust_domain : IsGiven cfg.trust_domain flags.trust_domain started.config.trust_domain
    pub dsn : IsGiven cfg.storage.dsn flags.db started.config.storage.dsn
    pub same_ca : started.config.ca ≡ cfg.ca
    pub same_attestors : started.config.attestors ≡ cfg.attestors
    pub domain : started.config.trust_domain ≢ ""
    pub authority :
        new_self_signed_ca c enc (ca_config started.config) draws files
        ≡ (ok started.server.ca, files')
    pub settings : IsConfigured c enc (ca_config started.config) started.server.ca
    pub attestors : started.server.attestors ≡ build_attestor_registry started.config.attestors
    pub enabled : All (IsEnabled cfg.attestors) started.server.attestors
    pub opened : D
    pub opens : new_sqlite_store driver started.config.storage.dsn ≡ ok opened
    pub entries : HasEntries opened (started.not_preloaded, started.store)
