-- ===== src/Cli/Entries/Effects.antt =====
-- What `entry create` and `entry update` (internal/cli/entry.go) have done to the table when they
-- report success.
use mathlib.Core.Path.{subst}
use svidmint.Base.{
  String, ◌==◌, ◌≡◌, ◌≢◌, refl, sym, ap, ◌∙◌, Bool, true, false, not, Option, none, some, [], inl,
  inr, Result, ok, err, eq_iff, bind_ok, or_err_ok, guard_ok, wrap_err, wrap_err-eq-ok, is_empty,
  if◌then◌else◌, Bool-cases, arith,
}
use svidmint.Ca.{Crypto, SpiffeId}
use svidmint.Entry.{RegistrationEntry}
use svidmint.Entry.SqlStore.{Sql, SqlError, create, get, update}
use svidmint.Entry.SqlStore.Open.{Driver}
use svidmint.Entry.SqlStore.Table.{
  Rows, TableLaws, Outcome, done, unchanged, uncounted, stored, put, is_some, Answer,
}
use svidmint.Entry.SqlStore.Statements.{create-Outcome, update-Outcome, get-stored}
use svidmint.Cli.Types.{CliError}
use svidmint.Cli.Entries.{
  CreateFlags, UpdateFlags, Ran, or_old, open_store, in_store, answer, checked_entry,
  create_checked, entry_create, apply_flags, check_new_id, changed_entry, update_changed,
  entry_update,
}

-- What became of a field: the flag's value where the flag was given, and otherwise the old one.
abbrev pub IsFlagged : {A : Type 0} → Option A → A → A → Type 0
IsFlagged none old new = new ≡ old
IsFlagged (some given) old new = new ≡ given

or_old-IsFlagged : {A : Type 0} (o : Option A) (old : A) → IsFlagged o old (or_old o old)
or_old-IsFlagged none old = refl
or_old-IsFlagged (some given) old = refl

module _ {D : Type 0} (driver : Driver D) (sql : Sql D) (rows : Rows D) (laws : TableLaws sql rows)
    (c : Crypto) where
  abbrev AfterPut : D → D → RegistrationEntry → Type 0
  AfterPut d d' e =
      (j : String) → stored sql rows laws d' j ≡ put sql rows laws e.id (some (ok e)) d j

  -- The entry is new, is named by a SPIFFE ID, has an attestor and a selector, and is all that has
  -- changed.
  pub record IsCreated (uuid : String) (flags : CreateFlags) (id : String) (d' : D) : Type 0 where
    pub d : D
    pub opened : open_store driver sql flags.db ≡ ok d
    pub spiffe_id : SpiffeId
    pub parses : c.from_string flags.spiffe_id ≡ some spiffe_id
    pub attestor : flags.attestor ≢ ""
    pub selectors : flags.selectors ≢ []
    pub entry : RegistrationEntry
    pub made : entry ≡ record {
      id = if flags.id == "" then uuid else flags.id;
      spiffe_id = flags.spiffe_id;
      attestor = flags.attestor;
      selectors = flags.selectors;
      ttl = flags.ttl;
    }
    pub named : id ≡ entry.id
    pub is_new : is_some (rows d entry.id) ≡ false
    pub after : AfterPut d d' entry

  outcome_done :
      {A : Type 0} (d d' : D) (e : RegistrationEntry) (was : Bool) (r : Answer sql rows laws)
      (f : SqlError → CliError) (a b : A)
      → Outcome sql rows laws d e.id was (some (ok e)) r
      → answer driver sql f a r ≡ (ok b, d')
      → (a ≡ b) × (is_some (rows d e.id) ≡ was) × AfterPut d d' e
  outcome_done d d' e was _ f a b (done d'' there after) h =
      let same : d'' ≡ d' = ground arith in
      (ground arith, there, λ j. ap (λ x. stored sql rows laws x j) (sym same) ∙ after j)
  outcome_done d d' e was _ f a b (unchanged d'' x same) h = absurd (ground arith)
  outcome_done d d' e was _ f a b (uncounted d'') h = absurd (ground arith)

  in_store_ok :
      {A P : Type 0} (opened : Result SqlError D) (f : D → Result CliError A × D) (a : A) (d' : D)
      → in_store driver sql opened f ≡ (ok a, some d')
      → ((d : D) → opened ≡ ok d → f d ≡ (ok a, d') → P)
      → P
  in_store_ok (err e) f a d' h k = absurd (ground arith)
  in_store_ok (ok d) f a d' h k = k d refl (ground arith)

  create_checked_ok :
      {P : Type 0} (opened : Result SqlError D) (r : Result CliError RegistrationEntry)
      (id : String) (d' : D)
      → create_checked driver sql opened r ≡ (ok id, some d')
      → ((d : D) (e : RegistrationEntry)
          → opened ≡ ok d
          → r ≡ ok e
          → answer driver sql CliError.creating_entry e.id (create sql d e) ≡ (ok id, d')
          → P)
      → P
  create_checked_ok opened (err x) id d' h k = absurd (ground arith)
  create_checked_ok opened (ok e) id d' h k =
      in_store_ok opened (λ d. answer driver sql CliError.creating_entry e.id (create sql d e)) id
        d' h λ d is_open ran. k d e is_open refl ran

  -- When `entry create` reports the ID of a new entry, the flags were complete and name a valid
  -- SPIFFE ID; no entry had that ID, the table now has the entry of the flags under it (under a
  -- drawn UUID where none was given), and nothing else has changed. (`TableLaws`: SQL on a table
  -- with a primary key.)
  pub entry_create-IsCreated :
      (uuid : String) (flags : CreateFlags) (id : String) (d' : D)
      → entry_create driver sql c uuid flags ≡ (ok id, some d')
      → IsCreated uuid flags id d'
  unfolding entry_create checked_entry
  entry_create-IsCreated uuid flags id d' h =
      create_checked_ok (open_store driver sql flags.db) (checked_entry driver sql c uuid flags) id
        d' h
        λ d e is_open checked ran.
          let (same, fresh, after) =
            outcome_done d d' e false (create sql d e) _ e.id id (create-Outcome sql rows laws d e)
              ran in
          or_err_ok (c.from_string flags.spiffe_id) _ _ checked λ sid parsed h₁.
            guard_ok (not (flags.attestor == "")) _ _ h₁ λ some_attestor h₂.
              guard_ok (not (is_empty flags.selectors)) _ _ h₂ λ some_selector h₃. record {
                d = d;
                opened = is_open;
                spiffe_id = sid;
                parses = parsed;
                attestor = λ e. ground (arith, eq_iff flags.attestor "");
                selectors = λ e. ground arith;
                entry = e;
                made = cc;
                named = sym same;
                is_new = fresh;
                after = after;
              }

  -- The entry was there; the given flags are what has changed of it, and it is all that has
  -- changed.
  pub record IsUpdated (flags : UpdateFlags) (d' : D) : Type 0 where
    pub d : D
    pub opened : open_store driver sql flags.db ≡ ok d
    pub old : RegistrationEntry
    pub was_there : stored sql rows laws d flags.id ≡ some (ok old)
    pub named : old.id ≡ flags.id
    pub valid :
        (spiffe_id : String)
        → flags.spiffe_id ≡ some spiffe_id
        → (id : SpiffeId) × (c.from_string spiffe_id ≡ some id)
    pub new : RegistrationEntry
    pub same_id : new.id ≡ old.id
    pub spiffe_id : IsFlagged flags.spiffe_id old.spiffe_id new.spiffe_id
    pub attestor : IsFlagged flags.attestor old.attestor new.attestor
    pub selectors : IsFlagged flags.selectors old.selectors new.selectors
    pub ttl : IsFlagged flags.ttl old.ttl new.ttl
    pub after : AfterPut d d' new

  new_id_valid :
      (o : Option String) {u : Unit {0}}
      → check_new_id driver sql c o ≡ ok u
      → (spiffe_id : String) → o ≡ some spiffe_id
      → (id : SpiffeId) × (c.from_string spiffe_id ≡ some id)
  new_id_valid none h spiffe_id given = absurd (cc)
  new_id_valid (some text) h spiffe_id given =
      or_err_ok (c.from_string text) _ _ h λ id parsed _. (id, ap c.from_string (cc) ∙ parsed)

  update_changed_ok :
      {P : Type 0} (flags : UpdateFlags) (d d' : D) (r : Result CliError RegistrationEntry)
      (id : String)
      → update_changed driver sql flags d r ≡ (ok id, d')
      → ((e : RegistrationEntry)
          → r ≡ ok e
          → answer driver sql CliError.updating_entry flags.id (update sql d e) ≡ (ok id, d')
          → P)
      → P
  update_changed_ok flags d d' (err x) id h k = absurd (ground arith)
  update_changed_ok flags d d' (ok e) id h k = k e refl h

  -- When `entry update` reports success, the entry was in the table, a SPIFFE ID that was given is
  -- valid, and the entry now has the given fields and keeps the others; no other entry has changed.
  -- (`TableLaws`: SQL on a table with a primary key.)
  pub entry_update-IsUpdated :
      (flags : UpdateFlags) (id : String) (d' : D)
      → entry_update driver sql c flags ≡ (ok id, some d')
      → IsUpdated flags d'
  unfolding entry_update changed_entry
  entry_update-IsUpdated flags id d' h = elim (Bool-cases (flags.id == "")) [
    | inl no_id ↦ absurd (refused (rw (no_id, entry_update) at h))
    | inr has_id ↦
        in_store_ok (open_store driver sql flags.db)
          (λ d. update_changed driver sql flags d (changed_entry driver sql c flags d)) id d'
          (rw (has_id, entry_update) at h)
          λ d is_open ran.
            update_changed_ok flags d d' (changed_entry driver sql c flags d) id ran
              λ e changed updated. updated-IsUpdated d e is_open changed updated
  ]
    where
      refused :
          {A P : Type 0} {x : CliError} {a : A}
          → ◌≡◌ {A = Ran D A} (err x, none) (ok a, some d')
          → P
      refused h = absurd (ground arith)

      updated-IsUpdated :
          (d : D) (e : RegistrationEntry)
          → open_store driver sql flags.db ≡ ok d
          → changed_entry driver sql c flags d ≡ ok e
          → answer driver sql CliError.updating_entry flags.id (update sql d e) ≡ (ok id, d')
          → IsUpdated flags d'
      updated-IsUpdated d e is_open changed updated =
          bind_ok (wrap_err CliError.getting_entry (get sql d flags.id)) _ changed λ old got h₁.
            bind_ok (check_new_id driver sql c flags.spiffe_id) _ h₁ λ _ valid h₂.
              let (there, named) =
                get-stored sql rows laws d flags.id old (wrap_err-eq-ok _ _ got) in
              let same : apply_flags driver sql flags old ≡ e = cc in
              let (_, _, after) =
                outcome_done d d' e true (update sql d e) _ flags.id id
                  (update-Outcome sql rows laws d e) updated in
              record {
                d = d;
                opened = is_open;
                old = old;
                was_there = there;
                named = named;
                valid = new_id_valid flags.spiffe_id valid;
                new = apply_flags driver sql flags old;
                same_id = refl;
                spiffe_id = or_old-IsFlagged flags.spiffe_id old.spiffe_id;
                attestor = or_old-IsFlagged flags.attestor old.attestor;
                selectors = or_old-IsFlagged flags.selectors old.selectors;
                ttl = or_old-IsFlagged flags.ttl old.ttl;
                after = subst (AfterPut d d') (sym same) after;
              }
