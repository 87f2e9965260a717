-- ===== src/Entry/Matcher.antt =====
-- internal/entry/matcher.go
pub mod Selectors
mod Loop
pub mod Best
use svidmint.Base.{
  String, Bool, true, false, ◌&&◌, ◌||◌, Option, none, some, List, [], ◌∷◌, ltb, eqb, if◌then◌else◌,
  length, Result, ok, err, ◌==◌,
}
use svidmint.Base.Text.{cut, str_ltb}
use svidmint.Base.Assoc.{lookup}
use svidmint.Glob.{GlobError, path_match}
use svidmint.Entry.Types.{RegistrationEntry, Claims}

-- `matched, err := path.Match(v, claimVal)`, with an error read as a mismatch
abbrev pub is_match : Result GlobError Bool → Bool
is_match (ok b) = b
is_match (err e) = false

abbrev pub claim_matches : String → Option String → Bool
claim_matches v none = false
claim_matches v (some claim_val) = is_match (path_match v claim_val)

abbrev pub cut_matches : Claims → Option (String × String) → Bool
cut_matches claims none = false
cut_matches claims (some (k, v)) = claim_matches v (lookup k claims)

-- `allSelectorsMatch`
unfoldable pub all_selectors_match : List String → Claims → Bool
all_selectors_match [] claims = true
all_selectors_match (sel ∷ selectors) claims =
    let rest = all_selectors_match selectors claims in
    if cut_matches claims (cut b':' sel) then rest else false

-- the condition under which `e` takes the place of `best`
unfoldable pub better : RegistrationEntry → RegistrationEntry → Bool
better e best =
    ltb (length best.selectors) (length e.selectors)
    || (eqb (length e.selectors) (length best.selectors) && str_ltb e.id best.id)

abbrev pub replaces : RegistrationEntry → Option RegistrationEntry → Bool
replaces e none = true
replaces e (some best) = better e best

-- one round of the loop of `MatchEntries`
unfoldable pub match_step :
    String → Claims → Option RegistrationEntry → RegistrationEntry → Option RegistrationEntry
match_step attestor_name claims best e =
    if e.attestor == attestor_name
    then (if all_selectors_match e.selectors claims
        then (if replaces e best then some e else best)
        else best)
    else best

unfoldable pub match_loop :
    String → Claims → Option RegistrationEntry → List RegistrationEntry → Option RegistrationEntry
unfolding match_step
match_loop attestor_name claims best [] = best
match_loop attestor_name claims best (e ∷ entries) =
    match_loop attestor_name claims (match_step attestor_name claims best e) entries

-- `MatchEntries`
unfoldable pub match_entries : List RegistrationEntry → String → Claims → Option RegistrationEntry
unfolding match_loop
match_entries entries attestor_name claims = match_loop attestor_name claims none entries
