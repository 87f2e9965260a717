-- ===== src/Cli/Types.antt =====
-- The errors of the commands of internal/cli.
use svidmint.Ca.SelfSigned.{CaError}
use svidmint.Entry.SqlStore.{SqlError}

pub data CliError : Type 0 where
  invalid_spiffe_id attestor_required selector_required id_required : CliError
  opening_store creating_entry listing_entries getting_entry : SqlError → CliError
  updating_entry deleting_entry initializing_store : SqlError → CliError
  root_key_exists root_cert_exists : CliError
  initializing_ca rotating_ca : CaError → CliError
  reading_root_cert failed_to_decode_pem unsupported_format : CliError
  loading_config trust_domain_required loading_entries marshaling_config : CliError
