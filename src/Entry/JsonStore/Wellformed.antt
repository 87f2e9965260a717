-- ===== src/Entry/JsonStore/Wellformed.antt =====
-- The invariant of the map of jsonstore.go, and `Match` on a store that has it.
use mathlib.Core.List.{Mem, Perm, not-mem-nil, mem-cons}
use mathlib.Core.HLevel.{⊥_prop}
use mathlib.Core.Logic.Or
use text.Mathlib.TextEquality.{IsScalar-prop}
use svidmint.Base.{
  String, ◌≡◌, ◌≢◌, refl, sym, ◌∙◌, ap, Option, none, some, List, [], ◌∷◌, map, ok, inl, inr, All,
  Option-cases, Bool-cases, arith, ◌==◌,
}
use svidmint.Base.Assoc.{
  lookup, insert, erase, DistinctKeys, Fresh, insert-DistinctKeys, erase-DistinctKeys,
}
use svidmint.Entry.Types.{RegistrationEntry, Claims}
use svidmint.Entry.Matcher.{match_entries}
use svidmint.Entry.Matcher.Best.{IsBest, match_entries-IsBest, match_entries-perm}
use svidmint.Entry.JsonStore.{
  Entries, JsonStore, Os, State, with_entries, write, save, create, update, delete, list, match_,
  or_no_match, Op, run, create_op, update_op, delete_op,
}

-- Every key is the ID of its entry.
abbrev pub KeyedById : Entries → Type 0
KeyedById entries = All (λ (x : String × RegistrationEntry). x.0 ≡ x.1.id) entries

abbrev pub IsWellformed : JsonStore → Type 0
IsWellformed store = DistinctKeys store.entries × KeyedById store.entries

abbrev pub values : Entries → List RegistrationEntry
values m = map (λ (e : String × RegistrationEntry). e.1) m

insert-KeyedById : (e : RegistrationEntry) (m : Entries) → KeyedById m → KeyedById (insert e.id e m)
unfolding insert
insert-KeyedById e [] h = (refl, tt)
insert-KeyedById e ((k, x) ∷ m) (hx, hm) = elim (Bool-cases (k == e.id)) [
  | inl same ↦ rw same (refl, hm)
  | inr other ↦ rw other (hx, insert-KeyedById e m hm)
]

erase-KeyedById : (id : String) (m : Entries) → KeyedById m → KeyedById (erase id m)
unfolding erase
erase-KeyedById id [] h = tt
erase-KeyedById id ((k, x) ∷ m) (hx, hm) = elim (Bool-cases (k == id)) [
  | inl same ↦ rw same (erase-KeyedById id m hm)
  | inr other ↦ rw other (hx, erase-KeyedById id m hm)
]

write-store : (os : Os) (s : State) (o : Option String) → (write os s o).1.store ≡ s.store
write-store os s none = refl
write-store os s (some text) = elim (Bool-cases (os.writable s.store.path)) [
  | inl e ↦ rw e refl
  | inr e ↦ rw e refl
]

-- Saving changes the files only.
pub save-store : (os : Os) (s : State) → (save os s).1.store ≡ s.store
unfolding save
save-store os s = write-store os s (os.marshal s.store.entries)

save-IsWellformed : (os : Os) (s : State) → IsWellformed s.store → IsWellformed (save os s).1.store
save-IsWellformed os s h = rw (save-store os s) h

-- Whether an operation succeeds or not, it keeps every key once and equal to the ID of its entry.
pub run-IsWellformed :
    (os : Os) (s : State) (op : Op) → IsWellformed s.store → IsWellformed (run os s op).1.store
unfolding run create update delete
run-IsWellformed os s (create_op e) (d, k) = elim (Option-cases (lookup e.id s.store.entries)) [
  | inr (_, found) ↦ rw (found, run, create) (d, k)
  | inl absent ↦
      rw (absent, run, create)
        (save-IsWellformed os (with_entries s (insert e.id e s.store.entries))
          (insert-DistinctKeys e.id e s.store.entries d, insert-KeyedById e s.store.entries k))
]
run-IsWellformed os s (update_op e) (d, k) = elim (Option-cases (lookup e.id s.store.entries)) [
  | inl absent ↦ rw (absent, run, update) (d, k)
  | inr (_, found) ↦
      rw (found, run, update)
        (save-IsWellformed os (with_entries s (insert e.id e s.store.entries))
          (insert-DistinctKeys e.id e s.store.entries d, insert-KeyedById e s.store.entries k))
]
run-IsWellformed os s (delete_op id) (d, k) = elim (Option-cases (lookup id s.store.entries)) [
  | inl absent ↦ rw (absent, run, delete) (d, k)
  | inr (_, found) ↦
      rw (found, run, delete)
        (save-IsWellformed os (with_entries s (erase id s.store.entries))
          (erase-DistinctKeys id s.store.entries d, erase-KeyedById id s.store.entries k))
]

RegistrationEntry-set : IsSet RegistrationEntry
RegistrationEntry-set = hlevel IsScalar-prop

list_mem-Fresh :
    (k : String) (m : Entries) (a : RegistrationEntry)
    → Fresh k m
    → KeyedById m
    → Mem a (values m)
    → a.id ≢ k
list_mem-Fresh k [] a f h m e = not-mem-nil m
list_mem-Fresh k ((j, x) ∷ rest) a (fx, f) (hx, h) m e =
    Or.elim ⊥_prop (mem-cons.0 m)
      (λ same. fx (hx ∙ ap (λ (y : RegistrationEntry). y.id) (sym same) ∙ e))
      (λ later. list_mem-Fresh k rest a f h later e)

-- Two entries of a wellformed map with one ID are one entry.
pub values_unique :
    (m : Entries)
    → DistinctKeys m
    → KeyedById m
    → (a b : RegistrationEntry) → Mem a (values m)
    → Mem b (values m)
    → a.id ≡ b.id
    → a ≡ b
values_unique [] d k a b ma mb e = absurd (not-mem-nil ma)
values_unique ((j, x) ∷ rest) (fj, d) (kx, k) a b ma mb e =
    Or.elim (RegistrationEntry-set a b) (mem-cons.0 ma)
      (λ ax.
        Or.elim (RegistrationEntry-set a b) (mem-cons.0 mb) (λ bx. ax ∙ sym bx)
          (λ later. absurd (
            list_mem-Fresh j rest b fj k later
              (sym e ∙ ap (λ (y : RegistrationEntry). y.id) ax ∙ sym kx))))
      (λ la.
        Or.elim (RegistrationEntry-set a b) (mem-cons.0 mb)
          (λ bx. absurd (
            list_mem-Fresh j rest a fj k la (e ∙ ap (λ (y : RegistrationEntry). y.id) bx ∙ sym kx)))
          (λ lb. values_unique rest d k a b la lb e))

-- The entries of a wellformed store in any order give `Match` the same answer, so it does not
-- depend on the order in which Go walks the map; that answer is the best matching entry.
pub match-any_order :
    (store : JsonStore) (order : List RegistrationEntry) (name : String) (claims : Claims)
    → IsWellformed store
    → Perm (list store) order
    → match_ store name claims ≡ or_no_match (match_entries order name claims)
unfolding match_ list
match-any_order store order name claims (d, k) same = ap or_no_match (
    match_entries-perm (values store.entries) order name claims (values_unique store.entries d k)
      same)

or_no_match-eq-ok :
    (o : Option RegistrationEntry) (e : RegistrationEntry) → or_no_match o ≡ ok e → o ≡ some e
or_no_match-eq-ok none e h = absurd (cc)
or_no_match-eq-ok (some x) e h = ground arith

-- An entry that `Match` returns is the best of the stored ones.
pub match-IsBest :
    (store : JsonStore) (name : String) (claims : Claims) (e : RegistrationEntry)
    → match_ store name claims ≡ ok e
    → IsBest (list store) name claims e
unfolding match_ list
match-IsBest store name claims e h =
    match_entries-IsBest (values store.entries) name claims e (or_no_match-eq-ok _ e h)
