-- ===== src/Entry/SqlStore/Selected.antt =====
-- `Match` of the SQL stores (sqlite.go, postgres.go) against all entries of the table.
use mathlib.Core.List.{Mem, Mem-prop, not-mem-nil, mem-cons, mem-cons_self, mem-cons_of_mem}
use mathlib.Core.Logic.Or
use svidmint.Base.{
  String, ◌≡◌, ◌↔◌, sym, ◌∙◌, ap, some, List, [], ◌∷◌, ok, bind_ok, or_err_ok, or_err-eq-ok, arith,
}
use svidmint.Entry.Types.{RegistrationEntry, Claims}
use svidmint.Entry.Matcher.{match_entries}
use svidmint.Entry.Matcher.Best.{IsBest, match_entries-IsBest}
use svidmint.Entry.SqlStore.{Row, Sql, scan_entry, scan_rows, sqlite_match, postgres_match}

-- What `SELECT … WHERE attestor = ?` promises: the rows of the table with that attestor, in any
-- order.
pub record Selects {D : Type 0} (sql : Sql D) (rows : D → List Row) : Type 0 where
  pub selected :
      (name : String) (d : D) (found : List Row) (row : Row)
      → sql.select_attestor name d ≡ some found
      → Mem row found ↔ (Mem row (rows d) × (row.attestor ≡ name))

module _ {D : Type 0} (sql : Sql D) where
  scan_mem :
      (rows : List Row) (entries : List RegistrationEntry) (row : Row) (e : RegistrationEntry)
      → scan_rows sql rows ≡ ok entries
      → Mem row rows
      → scan_entry sql row ≡ ok e
      → Mem e entries
  unfolding scan_rows
  scan_mem [] entries row e h m s = absurd (not-mem-nil m)
  scan_mem (r ∷ rows) entries row e h m s = bind_ok (scan_entry sql r) _ h λ x head h₁.
      bind_ok (scan_rows sql rows) _ h₁ λ tail rest h₂.
        let same : x ∷ tail ≡ entries = cc in
        Or.elim Mem-prop (mem-cons.0 m)
          (λ here.
            let found : e ≡ x = ground (arith, head, s, here) in rw (found, ← same) mem-cons_self)
          (λ later. rw (← same) (mem-cons_of_mem x (scan_mem rows tail row e rest later s)))

  scan_origin :
      (rows : List Row) (entries : List RegistrationEntry) (e : RegistrationEntry)
      (goal : List RegistrationEntry)
      → scan_rows sql rows ≡ ok entries
      → Mem e entries
      → ((row : Row) → Mem row rows → scan_entry sql row ≡ ok e → Mem e goal)
      → Mem e goal
  unfolding scan_rows
  scan_origin [] entries e goal h m k =
      let none_left : [] ≡ entries = cc in absurd (not-mem-nil (rw (← none_left) at m))
  scan_origin (r ∷ rows) entries e goal h m k = bind_ok (scan_entry sql r) _ h λ x head h₁.
      bind_ok (scan_rows sql rows) _ h₁ λ tail rest h₂.
        let same : x ∷ tail ≡ entries = cc in
        Or.elim Mem-prop (mem-cons.0 (rw (← same) at m))
          (λ here. k r mem-cons_self (head ∙ ap ok (sym here)))
          (λ later.
            scan_origin rows tail e goal rest later λ row found. k row (mem-cons_of_mem r found))

  scan_entry-attestor :
      (row : Row) (e : RegistrationEntry) → scan_entry sql row ≡ ok e → row.attestor ≡ e.attestor
  unfolding scan_entry
  scan_entry-attestor row e h = or_err_ok (sql.unmarshal row.selectors) _ _ h λ selectors _ h₁. cc

  -- The entries of the selected rows and those of the whole table have the same best entry.
  selected-IsBest :
      (table : D → List Row) (d : D) (name : String) (claims : Claims) (found : List Row)
      (entries chosen : List RegistrationEntry) (e : RegistrationEntry)
      → Selects sql table
      → scan_rows sql (table d) ≡ ok entries
      → sql.select_attestor name d ≡ some found
      → scan_rows sql found ≡ ok chosen
      → match_entries chosen name claims ≡ some e
      → IsBest entries name claims e
  selected-IsBest table d name claims found entries chosen e laws all answered scanned matched =
      let best = match_entries-IsBest chosen name claims e matched in
      record {
        member = scan_origin found chosen e entries scanned best.member λ row m s.
            scan_mem (table d) entries row e all ((laws.selected name d found row answered).0 m).0
              s;
        attestor = best.attestor;
        selectors = best.selectors;
        unbeaten = λ x m p holds.
            best.unbeaten x
              (scan_origin (table d) entries x chosen all m λ row in_table s.
                scan_mem found chosen row x scanned
                  ((laws.selected name d found row answered).1
                    (in_table, scan_entry-attestor row x s ∙ p))
                  s)
              p holds;
      }

  -- An entry that the SQLite store's `Match` returns is the best of all entries of the table,
  -- though only the rows with the attestor's name are selected. (`Selects` says that a selection
  -- has just those rows.)
  pub sqlite_match-IsBest :
      (table : D → List Row) (d : D) (name : String) (claims : Claims)
      (entries : List RegistrationEntry) (e : RegistrationEntry)
      → Selects sql table
      → scan_rows sql (table d) ≡ ok entries
      → sqlite_match sql d name claims ≡ ok e
      → IsBest entries name claims e
  unfolding sqlite_match
  sqlite_match-IsBest table d name claims entries e laws all h =
      or_err_ok (sql.select_attestor name d) _ _ h λ found answered h₁.
        bind_ok (scan_rows sql found) _ h₁ λ chosen scanned h₂.
          selected-IsBest table d name claims found entries chosen e laws all answered scanned
            (or_err-eq-ok (match_entries chosen name claims) _ h₂)

  -- The same holds for an entry that the PostgreSQL store's `Match` returns.
  pub postgres_match-IsBest :
      (table : D → List Row) (d : D) (name : String) (claims : Claims)
      (entries : List RegistrationEntry) (e : RegistrationEntry)
      → Selects sql table
      → scan_rows sql (table d) ≡ ok entries
      → postgres_match sql d name claims ≡ ok (some e)
      → IsBest entries name claims e
  unfolding postgres_match
  postgres_match-IsBest table d name claims entries e laws all h =
      or_err_ok (sql.select_attestor name d) _ _ h λ found answered h₁.
        bind_ok (scan_rows sql found) _ h₁ λ chosen scanned h₂.
          selected-IsBest table d name claims found entries chosen e laws all answered scanned cc
