-- ===== src/Tests/Matching.antt =====
-- internal/entry/matcher.go and the TTLs of internal/ca/self_signed.go at concrete inputs.
use mathlib.Core.List.{Mem}
use mathlib.Core.List.Perm
use svidmint.Base.{String, ◌≡◌, ◌≢◌, eq_iff, refl, ◌↔◌, none, some, List, [], ◌∷◌, All, arith}
use svidmint.Base.Int.{pos}
use svidmint.Base.Text.{cut, str_ltb}
use svidmint.Base.Assoc.{lookup}
use svidmint.Glob.{path_match}
use svidmint.Entry.{RegistrationEntry, Claims}
use svidmint.Entry.JsonStore.Wellformed.{values_unique}
use svidmint.Entry.Matcher.{all_selectors_match, better, match_step, match_loop, match_entries}
use svidmint.Entry.Matcher.Selectors.{Holds}
use svidmint.Entry.Matcher.Best.{
  IsBest, match_entries-IsBest, match_entries-eq-none_iff, match_entries-perm,
}

abbrev entry : String → List String → RegistrationEntry
entry id selectors = record {
  id = id;
  spiffe_id = "spiffe://td/";
  attestor = "aws_sts";
  selectors = selectors;
  ttl = pos 300;
}

abbrev pub plain : RegistrationEntry
plain = entry "a" ("aws.account_id:1*" ∷ [])

abbrev pub exact : RegistrationEntry
exact = entry "b" ("aws.account_id:12" ∷ "aws.region:eu" ∷ [])

abbrev pub claims : Claims
claims = ("aws.account_id", "12") ∷ ("aws.region", "eu") ∷ []

pub exact_found : match_entries (plain ∷ exact ∷ []) "aws_sts" claims ≡ some exact
unfolding match_entries match_loop match_step all_selectors_match better path_match lookup cut
    str_ltb
exact_found = refl

match_entries-IsBest_example : IsBest (plain ∷ exact ∷ []) "aws_sts" claims exact
match_entries-IsBest_example =
    match_entries-IsBest (plain ∷ exact ∷ []) "aws_sts" claims exact exact_found

match_entries-eq-none_example : (match_entries (plain ∷ exact ∷ []) "deno_oidc" claims ≡ none) ↔ (
    (x : RegistrationEntry)
    → Mem x (plain ∷ exact ∷ [])
    → x.attestor ≡ "deno_oidc"
    → All (Holds claims) x.selectors
    → ⊥)
match_entries-eq-none_example = match_entries-eq-none_iff (plain ∷ exact ∷ []) "deno_oidc" claims

pub b_not_a : ◌≢◌ {A = String} "b" "a"
b_not_a e = ground (arith, eq_iff "b" "a")

match_entries-perm_example :
    match_entries (plain ∷ exact ∷ []) "aws_sts" claims
    ≡ match_entries (exact ∷ plain ∷ []) "aws_sts" claims
match_entries-perm_example =
    match_entries-perm (plain ∷ exact ∷ []) (exact ∷ plain ∷ []) "aws_sts" claims
      (values_unique (("a", plain) ∷ ("b", exact) ∷ []) ((b_not_a, tt), (tt, tt))
        (refl, (refl, tt)))
      (Perm.swap exact plain [])
