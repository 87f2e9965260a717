-- ===== src/Entry/SqlStore/Table.antt =====
-- The operations of the SQL stores (sqlite.go, postgres.go) on the table as a map from IDs to
-- entries.
use svidmint.Base.{
  ℕ, zero, suc, String, Bool, eq_iff, ◌==◌, ◌≡◌, refl, sym, ap, ◌∙◌, ◌⊎◌, inl, inr, true, false,
  Option, none, some, List, Result, ok, err, arith, if◌then◌else◌, Option-cases, Bool-cases,
}
use svidmint.Entry.Types.{RegistrationEntry}
use svidmint.Entry.SqlStore.{Row, Sql, SqlError, rows_affected, row_of, scan_entry, affected}

-- One row with an ID, or none.
abbrev pub Rows : Type 0 → Type 0
Rows D = D → String → Option Row

abbrev pub with_row : String → Option Row → (String → Option Row) → String → Option Row
with_row id row rows asked = if id == asked then row else rows asked

abbrev pub Counts : Option Row → Option ℕ → Type 0
Counts none count = (count ≡ none) ⊎ (count ≡ some 0)
Counts (some row) count = (count ≡ none) ⊎ (count ≡ some 1)

abbrev pub update_at : Row → Option Row → Option Row
update_at row none = none
update_at row (some old) = some row

-- What SQL says of the statements on a table whose primary key is the ID, and encoding/json of a
-- list of texts. A count of rows is the right one, or an error.
pub record TableLaws {D : Type 0} (sql : Sql D) (rows : Rows D) : Type 0 where
  pub inserts :
      (row : Row) (d d' : D)
      → sql.insert row d ≡ some d'
      → (rows d row.id ≡ none)
        × ((id : String) → rows d' id ≡ with_row row.id (some row) (rows d) id)
  pub selects :
      (id : String) (d : D) (row : Row)
      → sql.select_id id d ≡ some row
      → (rows d id ≡ some row) × (row.id ≡ id)
  pub updates :
      (row : Row) (d d' : D) (count : Option ℕ)
      → sql.update_row row d ≡ some (count, d')
      → Counts (rows d row.id) count
        × ((id : String) → rows d' id ≡ with_row row.id (update_at row (rows d row.id)) (rows d) id)
  pub deletes :
      (id : String) (d d' : D) (count : Option ℕ)
      → sql.delete_row id d ≡ some (count, d')
      → Counts (rows d id) count × ((j : String) → rows d' j ≡ with_row id none (rows d) j)
  pub reads_back :
      (selectors : List String) (text : String)
      → sql.marshal selectors ≡ some text
      → sql.unmarshal text ≡ some selectors

abbrev pub is_some : Option Row → Bool
is_some none = false
is_some (some row) = true

not_counted : {P : Type 0} (old : Row) → Counts (some old) (some zero) → P
not_counted old (inl h) = absurd (cc)
not_counted old (inr h) = absurd (ground arith)

not_one : {P : Type 0} (n : ℕ) → Counts none (some (suc n)) → P
not_one n (inl h) = absurd (cc)
not_one n (inr h) = absurd (ground arith)

module _ {D : Type 0} (sql : Sql D) (rows : Rows D) (laws : TableLaws sql rows) where
  abbrev pub entry_of : Option Row → Option (Result SqlError RegistrationEntry)
  entry_of none = none
  entry_of (some row) = some (scan_entry sql row)

  -- the entry with an ID, as it is read from its row
  abbrev pub stored : D → String → Option (Result SqlError RegistrationEntry)
  stored d id = entry_of (rows d id)

  abbrev pub put :
      String
      → Option (Result SqlError RegistrationEntry)
      → D
      → String
      → Option (Result SqlError RegistrationEntry)
  put id e d asked = if id == asked then e else stored d asked

  pub scan-row_of :
      (e : RegistrationEntry) (text : String)
      → sql.marshal e.selectors ≡ some text
      → scan_entry sql (row_of sql e text) ≡ ok e
  unfolding scan_entry
  scan-row_of e text h = rw (laws.reads_back e.selectors text h)

  entry_of-with_row :
      (id asked : String) (row : Option Row) (d : D)
      → entry_of (with_row id row (rows d) asked) ≡ put id (entry_of row) d asked
  entry_of-with_row id asked row d = elim (Bool-cases (id == asked)) [ inl e ↦ rw e | inr e ↦ rw e ]

  abbrev pub Answer : Type 0
  Answer = Result SqlError (Unit {0}) × D

  -- What a statement about one ID has done: it has made the promised change of a row that was there
  -- (or was not), it has failed and changed nothing, or it is unknown how many rows it has changed.
  pub data Outcome (d : D) (id : String) (was : Bool)
      (after : Option (Result SqlError RegistrationEntry)) : Answer → Type 0 where
    done :
        (d' : D)
        → is_some (rows d id) ≡ was
        → ((j : String) → stored d' j ≡ put id after d j)
        → Outcome d id was after (ok tt, d')
    unchanged :
        (d' : D) (e : SqlError)
        → ((j : String) → stored d' j ≡ stored d j)
        → Outcome d id was after (err e, d')
    uncounted : (d' : D) → Outcome d id was after (err rows_affected, d')

  pub changed :
      (d d' : D) (id : String) (row : Option Row)
      → ((j : String) → rows d' j ≡ with_row id row (rows d) j)
      → (j : String) → stored d' j ≡ put id (entry_of row) d j
  changed d d' id row h j = ap entry_of (h j) ∙ entry_of-with_row id j row d

  -- no row had the ID, and none has it now
  nothing_there :
      (d d' : D) (id : String)
      → rows d id ≡ none
      → ((j : String) → rows d' j ≡ with_row id none (rows d) j)
      → (j : String) → stored d' j ≡ stored d j
  nothing_there d d' id empty h j = elim (Bool-cases (id == j)) [
    | inl e ↦
        let same : id ≡ j = (eq_iff id j).0 e in
        let now : rows d' j ≡ none = h j ∙ rw e refl in
        let before : rows d j ≡ none = ap (rows d) (sym same) ∙ empty in
        ap entry_of (now ∙ sym before)
    | inr e ↦ ap entry_of (h j ∙ rw e refl)
  ]

  pub affected-Outcome :
      (d : D) (id : String) (row : Option Row) (o : Option (Option ℕ × D))
      → ((d' : D) (count : Option ℕ)
          → o ≡ some (count, d')
          → Counts (rows d id) count × ((j : String) → rows d' j ≡ with_row id row (rows d) j))
      → (rows d id ≡ none → row ≡ none)
      → Outcome d id true (entry_of row) (affected sql d o)
  affected-Outcome d id row none law kept = unchanged d _ (λ j. refl)
  affected-Outcome d id row (some (none, d')) law kept = uncounted d'
  affected-Outcome d id row (some (some zero, d')) law kept =
      let (counted, made) = law d' (some zero) refl in
      unchanged d' _ (elim (Option-cases (rows d id)) [
        | inl empty ↦ nothing_there d d' id empty (λ j. rw (← (kept empty)) (made j))
        | inr (old, there) ↦ absurd (not_counted old (rw there at counted))
      ])
  affected-Outcome d id row (some (some (suc n), d')) law kept =
      let (counted, made) = law d' (some (suc n)) refl in
      done d'
        (elim (Option-cases (rows d id)) [
          | inl empty ↦ absurd (not_one n (rw empty at counted))
          | inr (old, there) ↦ rw there refl
        ])
        (changed d d' id row made)
