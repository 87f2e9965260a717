-- ===== src/Entry/JsonStore/Durable.antt =====
-- What is in the file of jsonstore.go: a store that is opened again has what was acknowledged.
use mathlib.Core.Path.{subst}
use svidmint.Base.{
  String, ◌≡◌, refl, ◌∙◌, true, Option, none, some, ok, inl, inr, Option-cases, Bool-cases, arith,
  eq_iff,
}
use svidmint.Base.Assoc.{lookup, insert, lookup-insert}
use svidmint.Entry.JsonStore.{
  Entries, JsonStore, Os, State, write, save, create, update, delete, Op, run, create_op, update_op,
  delete_op, new_json_store,
}

-- The same keys with the same entries: encoding/json writes the keys of a map in their order, so a
-- map that is read may have been listed in another.
abbrev pub SameMap : Entries → Entries → Type 0
SameMap entries entries' = (id : String) → lookup id entries' ≡ lookup id entries

-- encoding/json reads the map that it wrote, and a path that can be written can be read.
pub record RoundTrips (os : Os) : Type 0 where
  pub read_back :
      (entries : Entries) (text : String)
      → os.marshal entries ≡ some text
      → (entries' : Entries) × (os.unmarshal text ≡ some entries') × SameMap entries entries'
  pub can_read : (path : String) → os.writable path ≡ true → os.readable path ≡ true

-- The files open as a store at the same path, with the entries of the store in memory.
abbrev pub IsDurable : Os → State → Type 0
IsDurable os s =
    (store : JsonStore) × (new_json_store os s.files s.store.path ≡ ok store)
    × (store.path ≡ s.store.path)
    × SameMap s.store.entries store.entries

write-IsDurable :
    (os : Os) (s s' : State) (o : Option String) {u : Unit {0}}
    → RoundTrips os
    → os.marshal s.store.entries ≡ o
    → write os s o ≡ (ok u, s')
    → IsDurable os s'
unfolding new_json_store
write-IsDurable os s s' none laws e h = absurd (ground arith)
write-IsDurable os s s' (some text) laws e h = elim (Bool-cases (os.writable s.store.path)) [
  | inr cannot ↦ absurd (ground arith)
  | inl can ↦
      let same : record s { files = insert s.store.path text s.files } ≡ s' = ground arith in
      let found : lookup s.store.path (insert s.store.path text s.files) ≡ some text =
        lookup-insert s.store.path s.store.path text s.files
        ∙ ground (arith, eq_iff s.store.path s.store.path) in
      let reopened : IsDurable os (record s { files = insert s.store.path text s.files }) =
        let (entries, read, same_map) = laws.read_back s.store.entries text e in
        (
          record { path = s.store.path; entries = entries },
          rw (found, new_json_store) (rw (laws.can_read s.store.path can) (rw read refl)),
          refl,
          same_map,
        ) in
      subst (IsDurable os) same reopened
]

save-IsDurable :
    (os : Os) (s s' : State) {u : Unit {0}}
    → RoundTrips os
    → save os s ≡ (ok u, s')
    → IsDurable os s'
unfolding save
save-IsDurable os s s' laws h = write-IsDurable os s s' (os.marshal s.store.entries) laws refl h

-- After an operation that reported success, the file opens as a store with the entries that are in
-- memory, each under its ID: what was acknowledged is not lost with the process. (After one that
-- failed to write, memory may be ahead. `RoundTrips` says that encoding/json reads the map that it
-- wrote, in whatever order, and that a path that can be written can be read.)
pub run-IsDurable :
    (os : Os) (s s' : State) (op : Op) {u : Unit {0}}
    → RoundTrips os
    → run os s op ≡ (ok u, s')
    → IsDurable os s'
unfolding run create update delete
run-IsDurable os s s' (create_op e) laws h = elim (Option-cases (lookup e.id s.store.entries)) [
  | inr (_, found) ↦ absurd (ground arith)
  | inl absent ↦ save-IsDurable os _ s' laws (rw (absent, run, create) at h)
]
run-IsDurable os s s' (update_op e) laws h = elim (Option-cases (lookup e.id s.store.entries)) [
  | inl absent ↦ absurd (ground arith)
  | inr (_, found) ↦ save-IsDurable os _ s' laws (rw (found, run, update) at h)
]
run-IsDurable os s s' (delete_op id) laws h = elim (Option-cases (lookup id s.store.entries)) [
  | inl absent ↦ absurd (ground arith)
  | inr (_, found) ↦ save-IsDurable os _ s' laws (rw (found, run, delete) at h)
]
