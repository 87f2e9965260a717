-- ===== src/Cli/Entries.antt =====
-- internal/cli/entry.go: the commands on registration entries.
pub mod Effects
use Prim.Native.String.{◌++◌}
use svidmint.Base.{
  String, ◌==◌, Bool, true, false, not, ◌&&◌, Option, none, some, List, [], ◌∷◌, Result, ok, err,
  ◌>>=◌, ◌>>◌, guard, or_err, wrap_err, is_empty, if◌then◌else◌,
}
use svidmint.Base.Int.{ℤ}
use svidmint.Base.Text.{join}
use svidmint.Ca.{Crypto}
use svidmint.Entry.{RegistrationEntry}
use svidmint.Entry.SqlStore.{Sql, SqlError, create, get, sqlite_list, update, delete}
use svidmint.Entry.SqlStore.Open.{Driver, new_sqlite_store}
use svidmint.Cli.Types.{
  CliError, invalid_spiffe_id, attestor_required, selector_required, id_required, opening_store,
  creating_entry, listing_entries, getting_entry, updating_entry, deleting_entry,
}

pub record CreateFlags : Type 0 where
  pub db : String
  pub spiffe_id : String
  pub attestor : String
  pub selectors : List String
  pub ttl : ℤ
  pub id : String

-- `none` is a flag that was not given.
pub record UpdateFlags : Type 0 where
  pub db : String
  pub id : String
  pub spiffe_id : Option String
  pub attestor : Option String
  pub selectors : Option (List String)
  pub ttl : Option ℤ

-- What a command answers, and the database afterwards if it was opened.
abbrev pub Ran : Type 0 → Type 0 → Type 0
Ran D A = Result CliError A × Option D

abbrev pub or_old {ℓ} : {A : Type ℓ} → Option A → A → A
or_old none old = old
or_old (some new) old = new

-- `printEntry`, with fmt's `%d` as an argument
unfoldable pub print_entry : (ℤ → String) → RegistrationEntry → List String
print_entry decimal e =
    ("ID:        " ++ e.id)
    ∷ ("SPIFFE ID: " ++ e.spiffe_id)
    ∷ ("Attestor:  " ++ e.attestor)
    ∷ ("Selectors: " ++ join ", " e.selectors)
    ∷ ("TTL:       " ++ decimal e.ttl)
    ∷ ""
    ∷ []

module _ {D : Type 0} (driver : Driver D) (sql : Sql D) where
  -- `openStore`
  unfoldable pub open_store : String → Result SqlError D
  unfolding new_sqlite_store
  open_store db_path = new_sqlite_store driver (if db_path == "" then "svidmint.db" else db_path)

  abbrev pub in_store : {A : Type 0} → Result SqlError D → (D → Result CliError A × D) → Ran D A
  in_store (err e) f = (err (opening_store e), none)
  in_store (ok d) f = let (r, d') = f d in (r, some d')

  -- a call of the store, and what to answer when it succeeds
  abbrev pub answer :
      {A : Type 0}
      → (SqlError → CliError)
      → A
      → Result SqlError (Unit {0}) × D
      → Result CliError A × D
  answer f a (ok _, d) = (ok a, d)
  answer f a (err e, d) = (err (f e), d)

  -- the checks of `create`, and the entry
  unfoldable pub checked_entry : Crypto → String → CreateFlags → Result CliError RegistrationEntry
  checked_entry c uuid flags = do
    _ ← or_err (c.from_string flags.spiffe_id) invalid_spiffe_id
    guard (not (flags.attestor == "")) attestor_required
    guard (not (is_empty flags.selectors)) selector_required
    ok (record {
      id = if flags.id == "" then uuid else flags.id;
      spiffe_id = flags.spiffe_id;
      attestor = flags.attestor;
      selectors = flags.selectors;
      ttl = flags.ttl;
    })

  abbrev pub create_checked : Result SqlError D → Result CliError RegistrationEntry → Ran D String
  create_checked opened (err e) = (err e, none)
  create_checked opened (ok e) = in_store opened λ d. answer creating_entry e.id (create sql d e)

  -- `entry create`, which answers with the ID; `uuid` is the one it would draw.
  unfoldable pub entry_create : Crypto → String → CreateFlags → Ran D String
  unfolding checked_entry
  entry_create c uuid flags = create_checked (open_store flags.db) (checked_entry c uuid flags)

  -- the loop over the entries, printing those of the attestor
  unfoldable pub print_all : (ℤ → String) → String → List RegistrationEntry → List (List String)
  print_all decimal filter [] = []
  print_all decimal filter (e ∷ entries) =
      let rest = print_all decimal filter entries in
      if not (filter == "") && not (e.attestor == filter)
      then rest
      else print_entry decimal e ∷ rest

  -- `entry list`
  unfoldable pub entry_list : (ℤ → String) → String → String → Result CliError (List (List String))
  unfolding print_all
  entry_list decimal db filter = do
    d ← wrap_err opening_store (open_store db)
    entries ← wrap_err listing_entries (sqlite_list sql d)
    ok (print_all decimal filter entries)

  -- `entry show`
  unfoldable pub entry_show : (ℤ → String) → String → String → Result CliError (List String)
  entry_show decimal db id = do
    guard (not (id == "")) id_required
    d ← wrap_err opening_store (open_store db)
    e ← wrap_err getting_entry (get sql d id)
    ok (print_entry decimal e)

  abbrev pub check_new_id : Crypto → Option String → Result CliError (Unit {0})
  check_new_id c none = ok tt
  check_new_id c (some spiffe_id) =
      or_err (c.from_string spiffe_id) invalid_spiffe_id >>= λ id. ok tt

  -- the fields that flags were given for
  unfoldable pub apply_flags : UpdateFlags → RegistrationEntry → RegistrationEntry
  apply_flags flags e = record {
    id = e.id;
    spiffe_id = or_old flags.spiffe_id e.spiffe_id;
    attestor = or_old flags.attestor e.attestor;
    selectors = or_old flags.selectors e.selectors;
    ttl = or_old flags.ttl e.ttl;
  }

  unfoldable pub changed_entry : Crypto → UpdateFlags → D → Result CliError RegistrationEntry
  unfolding apply_flags
  changed_entry c flags d = do
    e ← wrap_err getting_entry (get sql d flags.id)
    check_new_id c flags.spiffe_id
    ok (apply_flags flags e)

  abbrev pub update_changed :
      UpdateFlags → D → Result CliError RegistrationEntry → Result CliError String × D
  update_changed flags d (err e) = (err e, d)
  update_changed flags d (ok e) = answer updating_entry flags.id (update sql d e)

  -- `entry update`
  unfoldable pub entry_update : Crypto → UpdateFlags → Ran D String
  unfolding changed_entry
  entry_update c flags =
      if flags.id == ""
      then (err id_required, none)
      else in_store (open_store flags.db) λ d. update_changed flags d (changed_entry c flags d)

  -- `entry delete`
  unfoldable pub entry_delete : String → String → Ran D String
  entry_delete db id =
      if id == ""
      then (err id_required, none)
      else in_store (open_store db) λ d. answer deleting_entry id (delete sql d id)
