-- ===== src/Tests/Statements.antt =====
-- The SQL stores (sqlite.go, postgres.go) and the entry commands over a small database: an
-- association list of rows.
use svidmint.Base.{
  ℕ, String, ◌==◌, eq_iff, ◌≡◌, refl, sym, ap, ◌∙◌, true, false, Option, none, some, List, [], ◌∷◌,
  ok, arith, inl, inr, if◌then◌else◌, Bool-cases,
}
use svidmint.Base.Int.{pos}
use svidmint.Base.Assoc.{lookup, insert, erase, lookup-insert, lookup-erase}
use svidmint.Entry.{RegistrationEntry}
use svidmint.Entry.SqlStore.{Row, Sql, create, update, delete, get}
use svidmint.Entry.SqlStore.Table.{TableLaws, Outcome, stored, with_row, update_at, Counts}
use svidmint.Entry.SqlStore.Statements.{statements-Outcome}
use svidmint.Cli.Start.{preload}
use svidmint.Cli.Start.Preloaded.{IsPreloaded, preload-IsPreloaded}

abbrev pub Db : Type 0
Db = List (String × Row)

abbrev one_text : List String → Option String
one_text [] = none
one_text (s ∷ []) = some s
one_text (s ∷ t ∷ rest) = none

abbrev insert_new : Row → Db → Option Row → Option Db
insert_new row db (some old) = none
insert_new row db none = some (insert row.id row db)

abbrev set_row : Row → Db → Option Row → Option (Option ℕ × Db)
set_row row db none = some (some 0, db)
set_row row db (some old) = some (some 1, insert row.id row db)

abbrev drop_row : String → Db → Option Row → Option (Option ℕ × Db)
drop_row id db none = some (some 0, db)
drop_row id db (some old) = some (some 1, erase id db)

abbrev keyed : String → Option Row → Option Row
keyed id none = none
keyed id (some row) = if row.id == id then some row else none

abbrev pub small_sql : Sql Db
small_sql = record {
  insert = λ row db. insert_new row db (lookup row.id db);
  select_id = λ id db. keyed id (lookup id db);
  select_all = λ db. none;
  select_by_id_order = λ db. none;
  select_attestor = λ name db. none;
  update_row = λ row db. set_row row db (lookup row.id db);
  delete_row = λ id db. drop_row id db (lookup id db);
  marshal = one_text;
  unmarshal = λ text. some (text ∷ []);
}

abbrev pub db_rows : Db → String → Option Row
db_rows db id = lookup id db

inserts_lem :
    (row : Row) (db db' : Db) (o : Option Row)
    → lookup row.id db ≡ o
    → insert_new row db o ≡ some db'
    → (lookup row.id db ≡ none)
      × ((id : String) → lookup id db' ≡ with_row row.id (some row) (db_rows db) id)
inserts_lem row db db' (some old) found h = absurd (cc)
inserts_lem row db db' none found h =
    let same : insert row.id row db ≡ db' = cc in
    (found, λ id. ap (lookup id) (sym same) ∙ lookup-insert row.id id row db)

kept_row :
    (id asked : String) (db : Db)
    → lookup id db ≡ none
    → lookup asked db ≡ with_row id none (db_rows db) asked
kept_row id asked db h = ground (arith, eq_iff id asked)

updates_lem :
    (row : Row) (db db' : Db) (count : Option ℕ) (o : Option Row)
    → lookup row.id db ≡ o
    → set_row row db o ≡ some (count, db')
    → Counts o count
      × ((id : String) → lookup id db' ≡ with_row row.id (update_at row o) (db_rows db) id)
updates_lem row db db' count none found h =
    let same : db ≡ db' = ground arith in
    (inr (ground arith), λ id. ap (lookup id) (sym same) ∙ kept_row row.id id db found)
updates_lem row db db' count (some old) found h =
    let same : insert row.id row db ≡ db' = ground arith in
    (inr (ground arith), λ id. ap (lookup id) (sym same) ∙ lookup-insert row.id id row db)

deletes_lem :
    (id : String) (db db' : Db) (count : Option ℕ) (o : Option Row)
    → lookup id db ≡ o
    → drop_row id db o ≡ some (count, db')
    → Counts o count × ((j : String) → lookup j db' ≡ with_row id none (db_rows db) j)
deletes_lem id db db' count none found h =
    let same : db ≡ db' = ground arith in
    (inr (ground arith), λ j. ap (lookup j) (sym same) ∙ kept_row id j db found)
deletes_lem id db db' count (some old) found h =
    let same : erase id db ≡ db' = ground arith in
    (inr (ground arith), λ j. ap (lookup j) (sym same) ∙ lookup-erase id j db)

one_text_lem :
    (selectors : List String) (text : String)
    → one_text selectors ≡ some text
    → ◌≡◌ {A = Option (List String)} (some (text ∷ [])) (some selectors)
one_text_lem [] text h = absurd (cc)
one_text_lem (s ∷ []) text h = cc
one_text_lem (s ∷ t ∷ rest) text h = absurd (cc)

keyed_lem :
    (id : String) (o : Option Row) (row : Row)
    → keyed id o ≡ some row
    → (o ≡ some row) × (row.id ≡ id)
keyed_lem id none row h = absurd (cc)
keyed_lem id (some found) row h = elim (Bool-cases (found.id == id)) [
  | inl e ↦
      let same : found ≡ row = ground arith in
      (ap some same, ap (λ (r : Row). r.id) (sym same) ∙ (eq_iff found.id id).0 e)
  | inr e ↦ absurd (ground arith)
]

pub small_sql-TableLaws : TableLaws small_sql db_rows
small_sql-TableLaws = record {
  inserts = λ row db db' h. inserts_lem row db db' (lookup row.id db) refl h;
  selects = λ id db row h. keyed_lem id (lookup id db) row h;
  updates = λ row db db' count h. updates_lem row db db' count (lookup row.id db) refl h;
  deletes = λ id db db' count h. deletes_lem id db db' count (lookup id db) refl h;
  reads_back = λ selectors text h. one_text_lem selectors text h;
}

abbrev pub batch : RegistrationEntry
batch = record {
  id = "batch";
  spiffe_id = "spiffe://td/batch";
  attestor = "aws_sts";
  selectors = "account:12" ∷ [];
  ttl = pos 300;
}

abbrev pub one_entry : Db
one_entry =
    (
      "batch",
      record {
        id = "batch";
        spiffe_id = "spiffe://td/batch";
        attestor = "aws_sts";
        selectors = "account:12";
        ttl = pos 300;
      },
    )
    ∷ []

statements-Outcome_example :
    Outcome small_sql db_rows small_sql-TableLaws one_entry "batch" false
      (some (ok batch))
      (create small_sql one_entry batch)
    × Outcome small_sql db_rows small_sql-TableLaws one_entry "batch" true
        (some (ok batch))
        (update small_sql one_entry batch)
    × Outcome small_sql db_rows small_sql-TableLaws one_entry "batch" true none
        (delete small_sql one_entry "batch")
    × ((found : RegistrationEntry)
        → get small_sql one_entry "batch" ≡ ok found
        → (stored small_sql db_rows small_sql-TableLaws one_entry "batch" ≡ some (ok found))
          × (found.id ≡ "batch"))
statements-Outcome_example =
    statements-Outcome small_sql db_rows small_sql-TableLaws one_entry batch "batch"

-- the file has another entry with the stored ID, and a new one
abbrev file_entries : List RegistrationEntry
file_entries = record batch { spiffe_id = "spiffe://td/other" } ∷ record batch { id = "fresh" } ∷ []

reported_once : (preload small_sql one_entry file_entries).0 ≡ "batch" ∷ []
unfolding preload create lookup insert
reported_once = refl

preload-IsPreloaded_example :
    IsPreloaded small_sql db_rows small_sql-TableLaws one_entry file_entries
      (preload small_sql one_entry file_entries)
preload-IsPreloaded_example =
    preload-IsPreloaded small_sql db_rows small_sql-TableLaws one_entry file_entries
