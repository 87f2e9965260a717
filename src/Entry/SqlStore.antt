-- ===== src/Entry/SqlStore.antt =====
-- internal/entry/sqlite.go, postgres.go and scan.go. The two stores send the same statements but
-- for the order of `List`, and differ in what `Match` returns where nothing matches.
pub mod Selected
pub mod Open
pub mod Table
pub mod Statements
use svidmint.Base.{
  ℕ, zero, suc, String, Option, none, some, List, [], ◌∷◌, Result, ok, err, ◌>>=◌, or_err,
}
use svidmint.Base.Int.{ℤ}
use svidmint.Entry.Types.{RegistrationEntry, Claims}
use svidmint.Entry.Matcher.{match_entries}

-- A row of `registration_entries`, but for its timestamps.
pub record Row : Type 0 where
  pub id : String
  pub spiffe_id : String
  pub attestor : String
  pub selectors : String
  pub ttl : ℤ

pub data SqlError : Type 0 where
  marshal_selectors exec_failed rows_affected not_found query_failed : SqlError
  unmarshal_selectors no_match open_failed ping_failed migrate_failed : SqlError

-- A database with its driver, and encoding/json for the selectors; `none` is an error, also one
-- that comes while rows are read. A failed statement changes nothing. `update` and `delete` give
-- the number of rows, which may be an error.
pub record Sql (D : Type 0) : Type 0 where
  pub insert : Row → D → Option D
  pub select_id : String → D → Option Row
  pub select_all : D → Option (List Row)
  pub select_by_id_order : D → Option (List Row)
  pub select_attestor : String → D → Option (List Row)
  pub update_row : Row → D → Option (Option ℕ × D)
  pub delete_row : String → D → Option (Option ℕ × D)
  pub marshal : List String → Option String
  pub unmarshal : String → Option (List String)

module _ {D : Type 0} (sql : Sql D) where
  -- `scanEntry` and `scanEntryRows`, whose bodies are the same
  unfoldable pub scan_entry : Row → Result SqlError RegistrationEntry
  scan_entry row = do
    selectors ← or_err (sql.unmarshal row.selectors) unmarshal_selectors
    ok (record {
      id = row.id;
      spiffe_id = row.spiffe_id;
      attestor = row.attestor;
      selectors = selectors;
      ttl = row.ttl;
    })

  -- the loop over the rows
  unfoldable pub scan_rows : List Row → Result SqlError (List RegistrationEntry)
  scan_rows [] = ok []
  scan_rows (row ∷ rows) = do e ← scan_entry row; entries ← scan_rows rows; ok (e ∷ entries)

  abbrev pub row_of : RegistrationEntry → String → Row
  row_of e selectors = record {
    id = e.id;
    spiffe_id = e.spiffe_id;
    attestor = e.attestor;
    selectors = selectors;
    ttl = e.ttl;
  }

  abbrev pub inserted : D → Option D → Result SqlError (Unit {0}) × D
  inserted d none = (err exec_failed, d)
  inserted d (some d') = (ok tt, d')

  -- `RowsAffected`, and no row as an error
  abbrev pub affected : D → Option (Option ℕ × D) → Result SqlError (Unit {0}) × D
  affected d none = (err exec_failed, d)
  affected d (some (none, d')) = (err rows_affected, d')
  affected d (some (some zero, d')) = (err not_found, d')
  affected d (some (some (suc n), d')) = (ok tt, d')

  -- `Create`
  unfoldable pub create : D → RegistrationEntry → Result SqlError (Unit {0}) × D
  create d e = elim (sql.marshal e.selectors) [
    | none ↦ (err marshal_selectors, d)
    | some selectors ↦ inserted d (sql.insert (row_of e selectors) d)
  ]

  -- `Get`
  unfoldable pub get : D → String → Result SqlError RegistrationEntry
  get d id = or_err (sql.select_id id d) query_failed >>= scan_entry

  -- `List` of the SQLite store
  unfoldable pub sqlite_list : D → Result SqlError (List RegistrationEntry)
  sqlite_list d = or_err (sql.select_all d) query_failed >>= scan_rows

  -- `List` of the PostgreSQL store
  unfoldable pub postgres_list : D → Result SqlError (List RegistrationEntry)
  postgres_list d = or_err (sql.select_by_id_order d) query_failed >>= scan_rows

  -- `Update`
  unfoldable pub update : D → RegistrationEntry → Result SqlError (Unit {0}) × D
  update d e = elim (sql.marshal e.selectors) [
    | none ↦ (err marshal_selectors, d)
    | some selectors ↦ affected d (sql.update_row (row_of e selectors) d)
  ]

  -- `Delete`
  unfoldable pub delete : D → String → Result SqlError (Unit {0}) × D
  delete d id = affected d (sql.delete_row id d)

  -- `Match` of the PostgreSQL store: nil and no error where nothing matches
  unfoldable pub postgres_match : D → String → Claims → Result SqlError (Option RegistrationEntry)
  postgres_match d attestor_name claims = do
    rows ← or_err (sql.select_attestor attestor_name d) query_failed
    entries ← scan_rows rows
    ok (match_entries entries attestor_name claims)

  -- `Match` of the SQLite store
  unfoldable pub sqlite_match : D → String → Claims → Result SqlError RegistrationEntry
  sqlite_match d attestor_name claims = do
    rows ← or_err (sql.select_attestor attestor_name d) query_failed
    entries ← scan_rows rows
    or_err (match_entries entries attestor_name claims) no_match
