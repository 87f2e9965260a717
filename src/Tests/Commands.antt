-- ===== src/Tests/Commands.antt =====
-- The commands of internal/cli at concrete inputs.
use svidmint.Base.{
  String, ◌≡◌, ◌≢◌, refl, Bool, true, false, none, some, [], ◌∷◌, ok, arith, eq_iff,
}
use svidmint.Base.Int.{pos}
use svidmint.Base.Assoc.{lookup, insert}
use svidmint.Ca.SelfSigned.Disk.{write_file, save_key, save_cert, load_key, load_cert, file_exists}
use svidmint.Ca.SelfSigned.Create.{load_root, make_root, get_root, new_self_signed_ca}
use svidmint.Ca.SelfSigned.Roots.{create_root_cert, create_intermediate_cert}
use svidmint.Entry.SqlStore.{create, get, update, scan_entry}
use svidmint.Entry.SqlStore.Open.{Driver, migrate, new_sqlite_store}
use svidmint.Attestor.{AttestationResult}
use svidmint.Attestor.Registry.{Attestor, name, attest_one, attest}
use svidmint.Config.{AttestorsConfig}
use svidmint.Cli.Entries.{
  CreateFlags, UpdateFlags, open_store, checked_entry, entry_create, apply_flags, changed_entry,
  entry_update,
}
use svidmint.Cli.Entries.Effects.{
  IsCreated, entry_create-IsCreated, IsUpdated, entry_update-IsUpdated,
}
use svidmint.Cli.Authority.{CaFlags, run_ca_init, run_ca_rotate}
use svidmint.Cli.Authority.Fresh.{IsInit, run_ca_init-IsInit, run_ca_rotate-same}
use svidmint.Cli.Start.{build_attestor_registry}
use svidmint.Cli.Start.Registered.{IsEnabled}
use svidmint.Cli.Start.Enabled.{IsAcceptedBy, build_attestor_registry-IsEnabled}
use svidmint.Tests.Toy.{toy, web}
use svidmint.Tests.Sunny.{sunny}
use svidmint.Tests.Restart.{maker, plain_text, read_raw, first, files}
use svidmint.Tests.Statements.{Db, small_sql, db_rows, small_sql-TableLaws, one_entry}

abbrev pub opens : Db → Driver Db
opens db = record { open_db = λ path. some db; ping = λ d. true; exec = λ ddl d. some d }

abbrev new_web : CreateFlags
new_web = record {
  db = "";
  spiffe_id = web;
  attestor = "deno_oidc";
  selectors = "sub:proj*" ∷ [];
  ttl = pos 600;
  id = "";
}

abbrev web_db : Db
web_db =
    (
      "uuid",
      record {
        id = "uuid";
        spiffe_id = web;
        attestor = "deno_oidc";
        selectors = "sub:proj*";
        ttl = pos 600;
      },
    )
    ∷ []

web_created : entry_create (opens []) small_sql toy "uuid" new_web ≡ (ok "uuid", some web_db)
unfolding entry_create checked_entry open_store new_sqlite_store migrate create lookup insert
web_created = refl

entry_create-IsCreated_example :
    IsCreated (opens []) small_sql db_rows small_sql-TableLaws toy "uuid" new_web "uuid" web_db
entry_create-IsCreated_example =
    entry_create-IsCreated (opens []) small_sql db_rows small_sql-TableLaws toy "uuid" new_web
      "uuid" web_db web_created

abbrev new_ttl : UpdateFlags
new_ttl = record {
  db = "";
  id = "batch";
  spiffe_id = some web;
  attestor = none;
  selectors = none;
  ttl = some (pos 600);
}

abbrev batch_db : Db
batch_db =
    (
      "batch",
      record {
        id = "batch";
        spiffe_id = web;
        attestor = "aws_sts";
        selectors = "account:12";
        ttl = pos 600;
      },
    )
    ∷ []

batch_updated : entry_update (opens one_entry) small_sql toy new_ttl ≡ (ok "batch", some batch_db)
unfolding entry_update changed_entry apply_flags open_store new_sqlite_store migrate get scan_entry
    update lookup insert
batch_updated = refl

entry_update-IsUpdated_example :
    IsUpdated (opens one_entry) small_sql db_rows small_sql-TableLaws toy new_ttl batch_db
entry_update-IsUpdated_example =
    entry_update-IsUpdated (opens one_entry) small_sql db_rows small_sql-TableLaws toy new_ttl
      "batch" batch_db batch_updated

abbrev pub deno_only : AttestorsConfig
deno_only = record {
  aws_lambda = some (record { enabled = false; allowed_account_ids = []; allowed_regions = [] });
  cloudflare_workers = none;
  github_oidc = none;
  deno_oidc = some (record { enabled = true; issuer = "https://oidc.deno.com" });
}

build_attestor_registry-IsEnabled_example :
    ((x : Attestor)
      → IsEnabled deno_only x
      → (attest sunny (build_attestor_registry deno_only) (name x) "e").0
        ≡ (attest_one sunny x "e").0)
    × ((t : String) (result : AttestationResult)
        → (attest sunny (build_attestor_registry deno_only) t "e").0 ≡ ok result
        → IsAcceptedBy deno_only sunny t "e" result)
build_attestor_registry-IsEnabled_example = build_attestor_registry-IsEnabled deno_only sunny "e"

abbrev ca_flags : CaFlags
ca_flags = record {
  trust_domain = "td";
  root_key_path = "root.key";
  root_cert_path = "root.crt";
  force = false;
}

abbrev removable : String → Bool
removable path = true

made_first : run_ca_init maker plain_text removable ca_flags first [] ≡ (ok "td", files)
unfolding run_ca_init new_self_signed_ca create_root_cert create_intermediate_cert get_root
    load_root make_root file_exists write_file save_key save_cert load_key load_cert lookup insert
made_first = refl

flag_paths_apart : ca_flags.root_key_path ≢ ca_flags.root_cert_path
flag_paths_apart e = ground (arith, eq_iff "root.key" "root.crt")

run_ca_init-IsInit_example : IsInit maker plain_text removable ca_flags first [] files
run_ca_init-IsInit_example =
    run_ca_init-IsInit maker plain_text read_raw removable ca_flags first [] files "td"
      flag_paths_apart made_first

key_there : file_exists ca_flags.root_key_path files ≡ true
unfolding file_exists lookup
key_there = refl

cert_there : file_exists ca_flags.root_cert_path files ≡ true
unfolding file_exists lookup
cert_there = refl

run_ca_rotate-same_example : (run_ca_rotate maker plain_text ca_flags first files).1 ≡ files
run_ca_rotate-same_example =
    run_ca_rotate-same maker plain_text ca_flags first files key_there cert_there

-- with `--force`, where nothing can be removed: success is reported, and the old root stays
forced_and_kept :
    run_ca_init maker plain_text (λ path. false) (record ca_flags { force = true }) first files
    ≡ (ok "td", files)
unfolding run_ca_init new_self_signed_ca create_root_cert create_intermediate_cert get_root
    load_root make_root file_exists write_file save_key save_cert load_key load_cert lookup insert
forced_and_kept = refl
