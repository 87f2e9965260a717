-- ===== src/Cli/Authority.antt =====
-- internal/cli/ca.go: the commands on the root of the authority.
mod Starts
pub mod Fresh
use svidmint.Base.{
  String, ◌==◌, Bool, true, false, not, ◌&&◌, ◌||◌, Option, none, some, Result, ok, err, ◌>>=◌,
  or_err, wrap_err, if◌then◌else◌,
}
use svidmint.Base.Assoc.{lookup, erase}
use svidmint.Ca.{Crypto, Der}
use svidmint.Ca.SelfSigned.{CaError, SelfSignedCa}
use svidmint.Ca.SelfSigned.Disk.{Files, Encoding, file_exists}
use svidmint.Ca.SelfSigned.Create.{SelfSignedCaConfig, StartDraws, new_self_signed_ca}
use svidmint.Cli.Types.{
  CliError, root_key_exists, root_cert_exists, initializing_ca, rotating_ca, reading_root_cert,
  failed_to_decode_pem, unsupported_format,
}

pub record CaFlags : Type 0 where
  pub trust_domain : String
  pub root_key_path : String
  pub root_cert_path : String
  pub force : Bool

-- the configuration that both `init` and `rotate` use
abbrev pub ca_config : CaFlags → SelfSignedCaConfig
ca_config flags = record {
  trust_domain = flags.trust_domain;
  key_type = "";
  root_key_path = flags.root_key_path;
  root_cert_path = flags.root_cert_path;
  signing_ttl = "720h";
  default_ttl = "1h";
  max_ttl = "24h";
}

abbrev pub done :
    {A B : Type 0} → (CaError → CliError) → B → Result CaError A × Files → Result CliError B × Files
done f b (ok _, files) = (ok b, files)
done f b (err e, files) = (err (f e), files)

-- `os.Remove`
abbrev pub remove : (String → Bool) → String → Files → Files
remove can_remove path files = if can_remove path then erase path files else files

module _ (c : Crypto) (enc : Encoding) where
  abbrev pub start_fresh : CaFlags → StartDraws → Files → Result CliError String × Files
  start_fresh flags draws files =
      done initializing_ca flags.trust_domain
        (new_self_signed_ca c enc (ca_config flags) draws files)

  -- `runCAInit`, which prints the trust domain; `can_remove` tells which files `os.Remove` removes,
  -- and its results are not looked at.
  unfoldable pub run_ca_init :
      (String → Bool) → CaFlags → StartDraws → Files → Result CliError String × Files
  run_ca_init can_remove flags draws files =
      if not flags.force
      then (if file_exists flags.root_key_path files
          then (err root_key_exists, files)
          else if file_exists flags.root_cert_path files
          then (err root_cert_exists, files)
          else start_fresh flags draws files)
      else start_fresh flags draws
          (remove can_remove flags.root_cert_path (remove can_remove flags.root_key_path files))

  -- `runCARotate`
  unfoldable pub run_ca_rotate : CaFlags → StartDraws → Files → Result CliError String × Files
  run_ca_rotate flags draws files =
      done rotating_ca "Intermediate signing key rotated successfully"
        (new_self_signed_ca c enc (ca_config flags) draws files)

  -- `runCAExport`: what it writes
  unfoldable pub run_ca_export : String → String → Files → Result CliError String
  run_ca_export root_cert_path format files = do
    data_ ← or_err (lookup root_cert_path files) reading_root_cert
    if format == "pem"
        then ok data_
        else if format == "der"
        then or_err (enc.pem_decode data_) failed_to_decode_pem
        else err unsupported_format
