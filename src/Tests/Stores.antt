-- ===== src/Tests/Stores.antt =====
-- internal/entry/jsonstore.go at concrete inputs.
use native.Mathlib.Decide.{ℕ_discrete}
use mathlib.Core.HLevel.{Discrete}
use mathlib.Core.List.{Perm}
use mathlib.Core.List.Perm
use svidmint.Base.{
  String, ◌==◌, ◌≡◌, ◌∙◌, eq_iff, refl, ap, sym, true, Option, none, some, [], ◌∷◌, ok, arith,
  if◌then◌else◌,
}
use svidmint.Base.Assoc.{lookup, insert}
use svidmint.Entry.JsonStore.{Entries, JsonStore, Os, State, save, create, list, run, create_op}
use svidmint.Entry.JsonStore.Wellformed.{IsWellformed, run-IsWellformed}
use svidmint.Entry.JsonStore.Refines.{Seen, view, promised, run-promised}
use svidmint.Entry.JsonStore.Durable.{SameMap, RoundTrips, IsDurable, run-IsDurable}
use svidmint.Tests.Toy.{String-dec}
use svidmint.Tests.Matching.{plain, exact}

-- Every file has the two entries.
abbrev both : Entries
both = ("a", plain) ∷ ("b", exact) ∷ []

abbrev disk : Os
disk = record {
  marshal = λ entries. some "both";
  unmarshal = λ text. some both;
  readable = λ path. true;
  writable = λ path. true;
}

abbrev one : State
one = record { store = record { path = "f"; entries = ("a", plain) ∷ [] }; files = [] }

abbrev pub two : JsonStore
two = record { path = "f"; entries = both }

run-IsWellformed_example : IsWellformed (run disk one (create_op exact)).1.store
run-IsWellformed_example = run-IsWellformed disk one (create_op exact) ((tt, tt), (refl, tt))

run-promised_example :
    ◌≡◌ {A = Seen}
      ((run disk one (create_op exact)).0, view (run disk one (create_op exact)).1.store)
      (promised (view one.store) (create_op exact))
run-promised_example = run-promised disk one (create_op exact) (λ entries. ("both", refl), refl)

two_swapped : Perm (list two) (exact ∷ plain ∷ [])
unfolding list
two_swapped = Perm.swap exact plain []

-- A disk for maps of these two entries, which writes them in the order of their IDs.
abbrev swapped : Entries
swapped = ("b", exact) ∷ ("a", plain) ∷ []

abbrev alone : Entries
alone = ("b", exact) ∷ []

abbrev Entries-dec : Discrete Entries
Entries-dec = hlevel (ℕ_discrete, String-dec)

abbrev written : {A B C : Type 0} → Dec A → Dec B → Dec C → Option String
written (yes _) _ _ = some "both"
written (no _) (yes _) _ = some "both"
written (no _) (no _) (yes _) = some "alone"
written (no _) (no _) (no _) = none

abbrev read_text : String → Option Entries
read_text text = if text == "both" then some both else some alone

abbrev small_disk : Os
small_disk = record {
  marshal = λ entries.
      written (Entries-dec entries both) (Entries-dec entries swapped) (Entries-dec entries alone);
  unmarshal = read_text;
  readable = λ path. true;
  writable = λ path. true;
}

sorted_lem : (id : String) → lookup id both ≡ lookup id swapped
unfolding lookup
sorted_lem id = ground (arith, eq_iff "a" id, eq_iff "b" id, eq_iff "a" "b")

written_lem :
    (entries : Entries) (d : Dec (entries ≡ both)) (d' : Dec (entries ≡ swapped))
    (d'' : Dec (entries ≡ alone)) (text : String)
    → written d d' d'' ≡ some text
    → (entries' : Entries) × (read_text text ≡ some entries') × SameMap entries entries'
written_lem entries (yes e) d' d'' text h =
    let same : "both" ≡ text = cc in (both, rw (← same) refl, λ id. ap (lookup id) (sym e))
written_lem entries (no _) (yes e) d'' text h =
    let same : "both" ≡ text = cc in
    (both, rw (← same) refl, λ id. sorted_lem id ∙ ap (lookup id) (sym e))
written_lem entries (no _) (no _) (yes e) text h =
    let same : "alone" ≡ text = cc in (alone, rw (← same) refl, λ id. ap (lookup id) (sym e))
written_lem entries (no _) (no _) (no _) text h = absurd (cc)

small_disk-RoundTrips : RoundTrips small_disk
small_disk-RoundTrips = record {
  read_back = λ entries text h.
      written_lem entries (Entries-dec entries both) (Entries-dec entries swapped)
        (Entries-dec entries alone) text h;
  can_read = λ path h. refl;
}

abbrev only_exact : State
only_exact = record { store = record { path = "f"; entries = alone }; files = [] }

-- in memory the entries stand in the order in which they came
abbrev saved_two : State
saved_two = record { store = record { path = "f"; entries = swapped }; files = ("f", "both") ∷ [] }

plain_added : run small_disk only_exact (create_op plain) ≡ (ok tt, saved_two)
unfolding run create save lookup insert ℕ_discrete
plain_added = refl

run-IsDurable_example : IsDurable small_disk saved_two
run-IsDurable_example =
    run-IsDurable small_disk only_exact saved_two (create_op plain) small_disk-RoundTrips
      plain_added
