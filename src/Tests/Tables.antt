-- ===== src/Tests/Tables.antt =====
-- internal/entry/sqlite.go and postgres.go at concrete inputs: a table with one row.
use mathlib.Core.List.{Mem, not-mem-nil, mem-cons}
use mathlib.Core.Logic.Or
use text.Mathlib.TextEquality.{IsScalar-prop}
use svidmint.Base.{
  String, ◌≡◌, refl, ◌∙◌, ap, Bool-cases, none, some, List, [], ◌∷◌, ok, arith, inl, inr, ◌==◌,
  eq_iff,
}
use svidmint.Base.Int.{pos}
use svidmint.Base.Text.{cut, str_ltb}
use svidmint.Base.Assoc.{lookup}
use svidmint.Glob.{path_match}
use svidmint.Entry.Matcher.{all_selectors_match, better, match_step, match_loop, match_entries}
use svidmint.Entry.Matcher.Best.{IsBest}
use svidmint.Entry.SqlStore.{Row, Sql, scan_entry, scan_rows, sqlite_match, postgres_match}
use svidmint.Entry.SqlStore.Selected.{Selects, sqlite_match-IsBest}
use svidmint.Tests.Toy.{some_if}
use svidmint.Tests.Matching.{plain, claims}

abbrev row : Row
row = record {
  id = plain.id;
  spiffe_id = plain.spiffe_id;
  attestor = "aws_sts";
  selectors = "json";
  ttl = pos 300;
}

abbrev one_row : Sql (Unit {0})
one_row = record {
  insert = λ r d. none;
  select_id = λ id d. some row;
  select_all = λ d. some (row ∷ []);
  select_by_id_order = λ d. some (row ∷ []);
  select_attestor = λ name d. some_if ("aws_sts" == name) (row ∷ []);
  update_row = λ r d. none;
  delete_row = λ id d. none;
  marshal = λ selectors. some "json";
  unmarshal = λ text. some plain.selectors;
}

abbrev table : Unit {0} → List Row
table d = row ∷ []

String-set : IsSet String
String-set = hlevel IsScalar-prop

row-attestor : (r : Row) (name : String) → "aws_sts" ≡ name → Mem r (row ∷ []) → r.attestor ≡ name
row-attestor r name named m =
    Or.elim (String-set r.attestor name) (mem-cons.0 m)
      (λ same. ap (λ (x : Row). x.attestor) same ∙ named) (λ later. absurd (not-mem-nil later))

one_row-Selects : Selects one_row table
one_row-Selects = record {
  selected = λ name d found r answered. elim (Bool-cases ("aws_sts" == name)) [
    | inl same ↦
        let all : row ∷ [] ≡ found = ground arith in
        let named : "aws_sts" ≡ name = (eq_iff "aws_sts" name).0 same in
        (
          λ m. (rw (← all) at m, row-attestor r name named (rw (← all) at m)),
          λ (m, _). rw (← all) m,
        )
    | inr other ↦ absurd (ground arith)
  ];
}

scanned : scan_rows one_row (table tt) ≡ ok (plain ∷ [])
unfolding scan_rows scan_entry
scanned = refl

sqlite_found : sqlite_match one_row tt "aws_sts" claims ≡ ok plain
unfolding sqlite_match scan_rows scan_entry match_entries match_loop match_step all_selectors_match
    better path_match lookup cut str_ltb
sqlite_found = refl

postgres_found : postgres_match one_row tt "aws_sts" claims ≡ ok (some plain)
unfolding postgres_match scan_rows scan_entry match_entries match_loop match_step
    all_selectors_match better path_match lookup cut str_ltb
postgres_found = refl

sqlite_match_example : IsBest (plain ∷ []) "aws_sts" claims plain
sqlite_match_example =
    sqlite_match-IsBest one_row table tt "aws_sts" claims (plain ∷ []) plain one_row-Selects scanned
      sqlite_found
