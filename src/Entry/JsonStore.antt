-- ===== src/Entry/JsonStore.antt =====
-- internal/entry/jsonstore.go: the store of registration entries in a JSON file. The state is the
-- store and the files; the mutex makes every operation one step.
pub mod Wellformed
pub mod Refines
pub mod Durable
use svidmint.Base.{
  String, Bool, Option, none, some, List, [], ◌∷◌, map, Result, ok, err, if◌then◌else◌,
}
use svidmint.Base.Assoc.{lookup, insert, erase}
use svidmint.Entry.Types.{RegistrationEntry, Claims}
use svidmint.Entry.Matcher.{match_entries}

abbrev pub Entries : Type 0
Entries = List (String × RegistrationEntry)

pub record JsonStore : Type 0 where
  pub path : String
  pub entries : Entries

pub data StoreError : Type 0 where
  already_exists not_found no_match corrupt_file unreadable marshal_failed write_failed : StoreError

-- The packages encoding/json, for the entries, and os: which paths can be read and written.
pub record Os : Type 0 where
  pub marshal : Entries → Option String
  pub unmarshal : String → Option Entries
  pub readable : String → Bool
  pub writable : String → Bool

abbrev pub Files : Type 0
Files = List (String × String)

pub record State : Type 0 where
  pub store : JsonStore
  pub files : Files

abbrev pub unmarshal_into : String → Option Entries → Result StoreError JsonStore
unmarshal_into path none = err corrupt_file
unmarshal_into path (some entries) = ok (record { path = path; entries = entries })

-- `NewJSONStore`: a file that does not exist is no error.
unfoldable pub new_json_store : Os → Files → String → Result StoreError JsonStore
new_json_store os files path = elim (lookup path files) [
  | none ↦ ok (record { path = path; entries = [] })
  | some data_ ↦
      if os.readable path then unmarshal_into path (os.unmarshal data_) else err unreadable
]

abbrev pub write : Os → State → Option String → Result StoreError (Unit {0}) × State
write os s none = (err marshal_failed, s)
write os s (some text) =
    if os.writable s.store.path
    then (ok tt, record s { files = insert s.store.path text s.files })
    else (err write_failed, s)

-- `save`
unfoldable pub save : Os → State → Result StoreError (Unit {0}) × State
save os s = write os s (os.marshal s.store.entries)

abbrev pub with_entries : State → Entries → State
with_entries s entries = record s { store = record s.store { entries = entries } }

-- `Create`. The entry stands in the map before the file is written, also when that fails.
unfoldable pub create : Os → State → RegistrationEntry → Result StoreError (Unit {0}) × State
unfolding save
create os s e = elim (lookup e.id s.store.entries) [
  | some _ ↦ (err already_exists, s)
  | none ↦ save os (with_entries s (insert e.id e s.store.entries))
]

-- `Get`
unfoldable pub get : JsonStore → String → Result StoreError RegistrationEntry
get store id = elim (lookup id store.entries) [ some e ↦ ok e | none ↦ err not_found ]

-- `List`, in one order of the map.
unfoldable pub list : JsonStore → List RegistrationEntry
list store = map (λ (e : String × RegistrationEntry). e.1) store.entries

-- `Update`
unfoldable pub update : Os → State → RegistrationEntry → Result StoreError (Unit {0}) × State
unfolding save
update os s e = elim (lookup e.id s.store.entries) [
  | none ↦ (err not_found, s)
  | some _ ↦ save os (with_entries s (insert e.id e s.store.entries))
]

-- `Delete`
unfoldable pub delete : Os → State → String → Result StoreError (Unit {0}) × State
unfolding save
delete os s id = elim (lookup id s.store.entries) [
  | none ↦ (err not_found, s)
  | some _ ↦ save os (with_entries s (erase id s.store.entries))
]

abbrev pub or_no_match : Option RegistrationEntry → Result StoreError RegistrationEntry
or_no_match none = err no_match
or_no_match (some best) = ok best

-- `Match`
unfoldable pub match_ : JsonStore → String → Claims → Result StoreError RegistrationEntry
unfolding list
match_ store attestor_name claims = or_no_match (match_entries (list store) attestor_name claims)

-- The calls that change the store.
pub data Op : Type 0 where
  create_op update_op : RegistrationEntry → Op
  delete_op : String → Op

unfoldable pub run : Os → State → Op → Result StoreError (Unit {0}) × State
unfolding create update delete
run os s (create_op e) = create os s e
run os s (update_op e) = update os s e
run os s (delete_op id) = delete os s id
