-- ===== src/Mapper.antt =====
-- internal/mapper/mapper.go: the SPIFFE ID of a set of claims.
pub mod Order
use Prim.Native.String.{◌++◌}
use mathlib.Core.List.{foldr}
use svidmint.Base.{String, Option, none, some, List, [], ◌∷◌, map, if◌then◌else◌}
use svidmint.Base.Text.{str_ltb, join}
use svidmint.Base.Assoc.{lookup}
use svidmint.Entry.{Claims}

-- a key put before the first that it is smaller than
unfoldable pub insert_sorted : String → List String → List String
insert_sorted k [] = k ∷ []
insert_sorted k (j ∷ js) =
    let rest = insert_sorted k js in if str_ltb k j then k ∷ j ∷ js else j ∷ rest

-- `sort.Strings`, whose result is the sorted list whatever the algorithm
unfoldable pub sort_strings : List String → List String
unfolding insert_sorted
sort_strings keys = foldr insert_sorted [] keys

-- `claims[k]`, "" where there is none
abbrev pub value_of : Option String → String
value_of none = ""
value_of (some v) = v

abbrev pub claim : Claims → String → String
claim claims k = value_of (lookup k claims)

abbrev pub key_of : String × String → String
key_of entry = entry.0

-- `DeriveSpiffeID`
unfoldable pub derive_spiffe_id : String → String → Claims → String
unfolding sort_strings
derive_spiffe_id trust_domain attestor claims =
    let keys = sort_strings (map key_of claims) in
    let values = map (claim claims) keys in
    "spiffe://" ++ (trust_domain ++ ("/" ++ (attestor ++ ("/" ++ join "/" values))))
