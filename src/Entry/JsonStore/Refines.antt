-- ===== src/Entry/JsonStore/Refines.antt =====
-- The store of jsonstore.go against what the interface `Store` (store.go) promises: a finite map
-- from IDs to entries, which forgets the file and the order of the map.
use svidmint.Base.{
  String, ◌≡◌, refl, ◌∙◌, ap, true, Option, none, some, Result, ok, err, inl, inr, Option-cases,
  ◌==◌, if◌then◌else◌,
}
use svidmint.Base.Assoc.{lookup, insert, erase, lookup-insert, lookup-erase}
use svidmint.Entry.Types.{RegistrationEntry}
use svidmint.Entry.JsonStore.{
  Entries, JsonStore, StoreError, already_exists, not_found, Os, State, with_entries, save, create,
  update, delete, Op, create_op, update_op, delete_op, run,
}
use svidmint.Entry.JsonStore.Wellformed.{save-store}

-- A finite map from IDs to entries.
abbrev pub Spec : Type 0
Spec = String → Option RegistrationEntry

abbrev pub put : String → Option RegistrationEntry → Spec → Spec
put id o m = λ j. if id == j then o else m j

abbrev or_absent :
    Spec → String → Option RegistrationEntry → Spec → Result StoreError (Unit {0}) × Spec
or_absent m id none m' = (err not_found, m)
or_absent m id (some _) m' = (ok tt, m')

abbrev or_present : Spec → Option RegistrationEntry → Spec → Result StoreError (Unit {0}) × Spec
or_present m none m' = (ok tt, m')
or_present m (some _) m' = (err already_exists, m)

-- What an operation answers and does, on the finite map.
abbrev pub promised : Spec → Op → Result StoreError (Unit {0}) × Spec
promised m (create_op e) = or_present m (m e.id) (put e.id (some e) m)
promised m (update_op e) = or_absent m e.id (m e.id) (put e.id (some e) m)
promised m (delete_op id) = or_absent m id (m id) (put id none m)

-- What a client sees of the store.
abbrev pub view : JsonStore → Spec
view store = λ id. lookup id store.entries

-- The file can be written.
abbrev pub CanSave : Os → String → Type 0
CanSave os path =
    ((entries : Entries) → (text : String) × (os.marshal entries ≡ some text))
    × (os.writable path ≡ true)

save-ok : (os : Os) (s : State) → CanSave os s.store.path → (save os s).0 ≡ ok tt
unfolding save
save-ok os s (can_marshal, can_write) =
    let (text, e) = can_marshal s.store.entries in rw e (rw can_write refl)

abbrev pub Seen : Type 0
Seen = Result StoreError (Unit {0}) × Spec

saved :
    (os : Os) (s : State) (m : Spec)
    → CanSave os s.store.path
    → ((j : String) → view s.store j ≡ m j)
    → ◌≡◌ {A = Seen} ((save os s).0, view (save os s).1.store) (ok tt, m)
saved os s m can same = λ i. (save-ok os s can i, (ap view (save-store os s) ∙ λ k j. same j k) i)

-- While the file can be written, every operation of the store is the promised one: it answers with
-- the same error or success, and leaves the promised map.
pub run-promised :
    (os : Os) (s : State) (op : Op)
    → CanSave os s.store.path
    → ◌≡◌ {A = Seen} ((run os s op).0, view (run os s op).1.store) (promised (view s.store) op)
unfolding run create update delete
run-promised os s (create_op e) can = elim (Option-cases (lookup e.id s.store.entries)) [
  | inr (_, found) ↦ rw (found, run, create) refl
  | inl absent ↦
      rw (absent, run, create)
        (saved os (with_entries s (insert e.id e s.store.entries)) _ can
          λ j. lookup-insert e.id j e s.store.entries)
]
run-promised os s (update_op e) can = elim (Option-cases (lookup e.id s.store.entries)) [
  | inl absent ↦ rw (absent, run, update) refl
  | inr (_, found) ↦
      rw (found, run, update)
        (saved os (with_entries s (insert e.id e s.store.entries)) _ can
          λ j. lookup-insert e.id j e s.store.entries)
]
run-promised os s (delete_op id) can = elim (Option-cases (lookup id s.store.entries)) [
  | inl absent ↦ rw (absent, run, delete) refl
  | inr (_, found) ↦
      rw (found, run, delete)
        (saved os (with_entries s (erase id s.store.entries)) _ can
          λ j. lookup-erase id j s.store.entries)
]
