-- ===== src/Entry/SqlStore/Statements.antt =====
-- The operations of the SQL stores (sqlite.go, postgres.go) on the table of entries.
use mathlib.Core.Path.{subst}
use svidmint.Base.{
  or_err_ok, String, ◌≡◌, refl, ap, ◌∙◌, inl, inr, true, false, Option, none, some, Result, ok,
  Option-cases,
}
use svidmint.Entry.Types.{RegistrationEntry}
use svidmint.Entry.SqlStore.{
  Row, Sql, SqlError, row_of, scan_entry, affected, create, get, update, delete,
}
use svidmint.Entry.SqlStore.Table.{
  Rows, TableLaws, update_at, is_some, entry_of, stored, Answer, Outcome, done, unchanged,
  uncounted, changed, affected-Outcome, scan-row_of,
}

module _ {D : Type 0} (sql : Sql D) (rows : Rows D) (laws : TableLaws sql rows) where
  pub create-Outcome :
      (d : D) (e : RegistrationEntry)
      → Outcome sql rows laws d e.id false (some (ok e)) (create sql d e)
  unfolding create
  create-Outcome d e = elim (Option-cases (sql.marshal e.selectors)) [
    | inl no_text ↦ rw (no_text, create) (unchanged d _ (λ j. refl))
    | inr (text, marshaled) ↦
        let row = row_of sql e text in
        elim (Option-cases (sql.insert row d)) [
          | inl refused ↦ rw (marshaled, create, refused) (unchanged d _ (λ j. refl))
          | inr (d', made) ↦
              let (absent, there) = laws.inserts row d d' made in
              let scanned : entry_of sql rows laws (some row) ≡ some (ok e) =
                ap some (scan-row_of sql rows laws e text marshaled) in
              rw (marshaled, create, made)
                (done d' (rw absent refl)
                  (λ j. rw (← scanned) (changed sql rows laws d d' e.id (some row) there j)))
        ]
  ]

  -- without a row there is no change to make
  any_after :
      (d : D) (id : String) (a b : Option (Result SqlError RegistrationEntry))
      (answer : Answer sql rows laws)
      → rows d id ≡ none
      → Outcome sql rows laws d id true a answer
      → Outcome sql rows laws d id true b answer
  any_after d id a b _ empty (done d' was after) = absurd (no_row (rw empty at was))
    where
      no_row : {P : Type 0} → is_some none ≡ true → P
      no_row h = absurd (cc)
  any_after d id a b _ empty (unchanged d' e same) = unchanged d' e same
  any_after d id a b _ empty (uncounted d') = uncounted d'

  pub update-Outcome :
      (d : D) (e : RegistrationEntry)
      → Outcome sql rows laws d e.id true (some (ok e)) (update sql d e)
  unfolding update
  update-Outcome d e = elim (Option-cases (sql.marshal e.selectors)) [
    | inl no_text ↦ rw (no_text, update) (unchanged d _ (λ j. refl))
    | inr (text, marshaled) ↦
        let row = row_of sql e text in
        let answer = affected sql d (sql.update_row row d) in
        let outcome : Outcome sql rows laws d e.id true
            (entry_of sql rows laws (update_at row (rows d e.id))) answer =
          affected-Outcome sql rows laws d e.id _ (sql.update_row row d)
            (λ d' count. laws.updates row d d' count) (λ empty. rw empty refl) in
        rw (marshaled, update)
          (elim (Option-cases (rows d e.id)) [
            | inl empty ↦ any_after d e.id _ _ answer empty outcome
            | inr (old, there) ↦
                let scanned : entry_of sql rows laws (update_at row (rows d e.id)) ≡ some (ok e) =
                  rw there (ap some (scan-row_of sql rows laws e text marshaled)) in
                subst (λ after. Outcome sql rows laws d e.id true after answer) scanned outcome
          ])
  ]

  delete-Outcome : (d : D) (id : String) → Outcome sql rows laws d id true none (delete sql d id)
  unfolding delete
  delete-Outcome d id =
      affected-Outcome sql rows laws d id none (sql.delete_row id d)
        (λ d' count. laws.deletes id d d' count) (λ empty. refl)

  scan_entry-id : (row : Row) (e : RegistrationEntry) → scan_entry sql row ≡ ok e → e.id ≡ row.id
  unfolding scan_entry
  scan_entry-id row e h = or_err_ok (sql.unmarshal row.selectors) _ _ h λ selectors _ h₁. cc

  pub get-stored :
      (d : D) (id : String) (e : RegistrationEntry)
      → get sql d id ≡ ok e
      → (stored sql rows laws d id ≡ some (ok e)) × (e.id ≡ id)
  unfolding get
  get-stored d id e h = or_err_ok (sql.select_id id d) _ _ h λ row selected scanned.
      let (there, keyed) = laws.selects id d row selected in
      (rw there (ap some scanned), scan_entry-id row e scanned ∙ keyed)

  -- Each statement of the stores on the table of entries by their IDs: `Create` succeeds only where
  -- no row has the ID, and then the entry has it; `Update` and `Delete` succeed only where a row
  -- has it, and then it is the new entry, or gone; every other ID keeps its entry. On an error the
  -- table is as before, but where the driver cannot tell the number of changed rows. What `Get`
  -- returns is the entry that the table has, and has that ID. (`TableLaws`: SQL on a table with a
  -- primary key, and JSON that is read back.)
  pub statements-Outcome :
      (d : D) (e : RegistrationEntry) (id : String)
      → Outcome sql rows laws d e.id false (some (ok e)) (create sql d e)
        × Outcome sql rows laws d e.id true (some (ok e)) (update sql d e)
        × Outcome sql rows laws d id true none (delete sql d id)
        × ((found : RegistrationEntry)
            → get sql d id ≡ ok found
            → (stored sql rows laws d id ≡ some (ok found)) × (found.id ≡ id))
  statements-Outcome d e id =
      (create-Outcome d e, update-Outcome d e, delete-Outcome d id, λ found. get-stored d id found)
