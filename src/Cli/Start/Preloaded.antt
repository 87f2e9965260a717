-- ===== src/Cli/Start/Preloaded.antt =====
-- What the loop of `server start` (internal/cli/server.go) that preloads entries does to the table.
use mathlib.Core.List.{Mem, mem-cons_self, mem-cons_of_mem}
use svidmint.Base.{
  String, ◌==◌, ◌≡◌, refl, sym, ap, ◌∙◌, ◌⊎◌, inl, inr, false, Option, none, some, List, [], ◌∷◌,
  Result, ok, err, All, eq_iff, eq_refl, arith, Bool-cases, Option-cases,
}
use svidmint.Entry.{RegistrationEntry}
use svidmint.Entry.SqlStore.{Sql, SqlError, marshal_selectors, exec_failed, Row, create, row_of}
use svidmint.Entry.SqlStore.Table.{
  Rows, TableLaws, Outcome, done, unchanged, uncounted, stored, put, is_some, Answer, entry_of,
}
use svidmint.Entry.SqlStore.Statements.{create-Outcome}
use svidmint.Cli.Start.{preload}

module _ {D : Type 0} (sql : Sql D) (rows : Rows D) (laws : TableLaws sql rows) where
  abbrev At : D → String → Option (Result SqlError RegistrationEntry)
  At d id = stored sql rows laws d id

  -- The entry is stored, or its ID is among those that are reported.
  abbrev pub Handled : List String × D → RegistrationEntry → Type 0
  Handled loaded e = (At loaded.1 e.id ≡ some (ok e)) ⊎ Mem e.id loaded.0

  pub record IsPreloaded (d : D) (entries : List RegistrationEntry) (loaded : List String × D)
      : Type 0 where
    pub kept :
        (id : String) {old : Result SqlError RegistrationEntry}
        → At d id ≡ some old
        → At loaded.1 id ≡ some old
    pub handled : All (Handled loaded) entries
    pub only :
        (id : String)
        → (At loaded.1 id ≡ At d id)
          ⊎ ((e : RegistrationEntry) × Mem e entries × (e.id ≡ id) × (At loaded.1 id ≡ some (ok e)))

  created :
      (d : D) (e : RegistrationEntry)
      → ((x : SqlError) × (create sql d e ≡ (err x, d)))
        ⊎ ((d' : D) × (create sql d e ≡ (ok tt, d')))
  unfolding create
  created d e = elim (Option-cases (sql.marshal e.selectors)) [
    | inl no_text ↦ inl (marshal_selectors, rw (no_text, create) refl)
    | inr (text, marshaled) ↦ elim (Option-cases (sql.insert (row_of sql e text) d)) [
      | inl refused ↦ inl (exec_failed, rw (marshaled, create, refused) refl)
      | inr (d', made) ↦ inr (d', rw (marshaled, create, made) refl)
    ]
  ]

  outcome_ok :
      (d d' : D) (e : RegistrationEntry) (r : Answer sql rows laws)
      → Outcome sql rows laws d e.id false (some (ok e)) r
      → r ≡ (ok tt, d')
      → (is_some (rows d e.id) ≡ false)
        × ((id : String) → At d' id ≡ put sql rows laws e.id (some (ok e)) d id)
  outcome_ok d d' e _ (done d'' absent after) h =
      let same : d'' ≡ d' = ground arith in (absent, λ id. ap (λ x. At x id) (sym same) ∙ after id)
  outcome_ok d d' e _ (unchanged d'' x same) h = absurd (ground arith)
  outcome_ok d d' e _ (uncounted d'') h = absurd (ground arith)

  no_row :
      {P : Type 0} (row : Option Row) {old : Result SqlError RegistrationEntry}
      → is_some row ≡ false
      → entry_of sql rows laws row ≡ some old
      → P
  no_row none absent h = absurd (cc)
  no_row (some row) absent h = absurd (cc)

  reported :
      (id : String) (failed : List String) (d : D) (entries : List RegistrationEntry)
      → All (Handled (failed, d)) entries
      → All (Handled (id ∷ failed, d)) entries
  reported id failed d [] h = tt
  reported id failed d (e ∷ entries) (inl there, hs) = (inl there, reported id failed d entries hs)
  reported id failed d (e ∷ entries) (inr m, hs) =
      (inr (mem-cons_of_mem id m), reported id failed d entries hs)

  skipped :
      (d : D) (e : RegistrationEntry) (entries : List RegistrationEntry) (loaded : List String × D)
      → IsPreloaded d entries loaded
      → IsPreloaded d (e ∷ entries) (e.id ∷ loaded.0, loaded.1)
  skipped d e entries (failed, d') rest = record {
    kept = rest.kept;
    handled = (inr mem-cons_self, reported e.id failed d' entries rest.handled);
    only = λ id. elim (rest.only id) [
      | inl same ↦ inl same
      | inr (x, m, named, there) ↦ inr (x, mem-cons_of_mem e m, named, there)
    ];
  }

  inserted_first :
      (d d₁ : D) (e : RegistrationEntry) (entries : List RegistrationEntry)
      (loaded : List String × D)
      → is_some (rows d e.id) ≡ false
      → ((id : String) → At d₁ id ≡ put sql rows laws e.id (some (ok e)) d id)
      → IsPreloaded d₁ entries loaded
      → IsPreloaded d (e ∷ entries) loaded
  inserted_first d d₁ e entries loaded absent after rest = record {
    kept = λ id old. elim (Bool-cases (e.id == id)) [
      | inl e_id ↦ no_row (rows d e.id) absent (ap (At d) ((eq_iff e.id id).0 e_id) ∙ old)
      | inr other ↦ rest.kept id (after id ∙ rw other old)
    ];
    handled = (inl (rest.kept e.id (after e.id ∙ rw (eq_refl e.id) refl)), rest.handled);
    only = λ id. elim (rest.only id) [
      | inr (x, m, named, there) ↦ inr (x, mem-cons_of_mem e m, named, there)
      | inl same ↦ elim (Bool-cases (e.id == id)) [
        | inl e_id ↦
            inr (e, mem-cons_self, (eq_iff e.id id).0 e_id, same ∙ (after id ∙ rw e_id refl))
        | inr other ↦ inl (same ∙ (after id ∙ rw other refl))
      ]
    ];
  }

  -- Preloading never changes an entry that is stored already. Each entry of the file is stored
  -- afterwards as it stands in the file, or its ID is among those that are reported as failed; and
  -- every ID has what it had before, or an entry of the file with this ID. (`TableLaws` says what
  -- SQL says of the statements on a table whose primary key is the ID.)
  pub preload-IsPreloaded :
      (d : D) (entries : List RegistrationEntry) → IsPreloaded d entries (preload sql d entries)
  unfolding preload
  preload-IsPreloaded d [] = record { kept = λ id h. h; handled = tt; only = λ id. inl refl }
  preload-IsPreloaded d (e ∷ entries) = elim (created d e) [
    | inl (x, failed) ↦ rw (preload, failed) (skipped d e entries _ (preload-IsPreloaded d entries))
    | inr (d₁, made) ↦
        let (absent, after) = outcome_ok d d₁ e _ (create-Outcome sql rows laws d e) made in
        rw (preload, made)
          (inserted_first d d₁ e entries _ absent after (preload-IsPreloaded d₁ entries))
  ]
