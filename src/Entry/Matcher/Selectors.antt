-- ===== src/Entry/Matcher/Selectors.antt =====
-- What it means that all selectors of an entry match (matcher.go), with no loop in it.
use svidmint.Base.{
  String, Char, ◌≡◌, refl, ◌↔◌, inl, inr, Bool, true, some, List, [], ◌∷◌, Result, ok, err, arith,
  Bool-cases, Option-cases, All,
}
use Prim.Native.String.{◌++◌}
use svidmint.Base.Text.{cut, Lacks, cut-append, cut_sound}
use svidmint.Base.Assoc.{lookup}
use svidmint.Glob.{GlobError, path_match}
use svidmint.Entry.Types.{Claims}
use svidmint.Entry.Matcher.{all_selectors_match, cut_matches, is_match}

abbrev pub colon : Char
colon = ":"

-- The selector is `key:pattern`, with no colon in the key, and the pattern matches the key's claim.
pub record Holds (claims : Claims) (sel : String) : Type 0 where
  pub key : String
  pub pattern : String
  pub value : String
  pub text : sel ≡ key ++ String.◌∷◌ colon pattern
  pub no_colon : Lacks b':' key
  pub found : lookup key claims ≡ some value
  pub matched : path_match pattern value ≡ ok true

is_match-eq-true : (r : Result GlobError Bool) → is_match r ≡ true → r ≡ ok true
is_match-eq-true (ok b) h = ground arith
is_match-eq-true (err e) h = cc

cut_matches-Holds :
    (claims : Claims) (sel : String) → cut_matches claims (cut b':' sel) ≡ true → Holds claims sel
cut_matches-Holds claims sel h = elim (Option-cases (cut b':' sel)) [
  | inl missing ↦ absurd (ground arith)
  | inr ((k, v), e) ↦ elim (Option-cases (lookup k claims)) [
    | inl no_claim ↦ absurd (ground arith)
    | inr (claim_val, f) ↦ record {
      key = k;
      pattern = v;
      value = claim_val;
      text = (cut_sound colon sel k v e).0;
      no_colon = (cut_sound colon sel k v e).1;
      found = f;
      matched = is_match-eq-true _ (rw (e, f) at h);
    }
  ]
]

Holds-cut_matches :
    (claims : Claims) (sel : String) → Holds claims sel → cut_matches claims (cut b':' sel) ≡ true
Holds-cut_matches claims sel h =
    rw h.text (rw (cut-append colon h.key h.pattern h.no_colon) (rw h.found (rw h.matched)))

all_selectors_match-Holds :
    (selectors : List String) (claims : Claims)
    → all_selectors_match selectors claims ≡ true
    → All (Holds claims) selectors
unfolding all_selectors_match
all_selectors_match-Holds [] claims h = tt
all_selectors_match-Holds (sel ∷ selectors) claims h =
    elim (Bool-cases (cut_matches claims (cut b':' sel))) [
      | inl e ↦ (
        cut_matches-Holds claims sel e,
        all_selectors_match-Holds selectors claims (ground arith),
      )
      | inr e ↦ absurd (ground arith)
    ]

Holds-all_selectors_match :
    (selectors : List String) (claims : Claims)
    → All (Holds claims) selectors
    → all_selectors_match selectors claims ≡ true
unfolding all_selectors_match
Holds-all_selectors_match [] claims h = refl
Holds-all_selectors_match (sel ∷ selectors) claims (h, hs) =
    rw (Holds-cut_matches claims sel h) (Holds-all_selectors_match selectors claims hs)

-- `allSelectorsMatch` answers true exactly when every selector is a key and a pattern that matches
-- the claim with this key; a selector with no colon, an absent claim and a malformed pattern fail.
pub all_selectors_match_iff :
    (selectors : List String) (claims : Claims)
    → (all_selectors_match selectors claims ≡ true) ↔ All (Holds claims) selectors
all_selectors_match_iff selectors claims =
    (all_selectors_match-Holds selectors claims, Holds-all_selectors_match selectors claims)
