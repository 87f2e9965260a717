-- ===== src/Attestor/Github/Verdict.antt =====
-- What the allow list of github_oidc.go (`validateRepository`) decides, on every path.
use svidmint.Base.{
  String, ◌≡◌, ◌≢◌, refl, Bool, true, false, List, [], ◌∷◌, ◌++◌, Result, ok, err, ap, All,
}
use svidmint.Glob.{GlobError, bad_pattern, out_of_fuel, path_match}
use svidmint.Glob.Enough.{path_match-HasFuel}
use svidmint.Attestor.Types.{AttestError, repository_not_allowed, bad_repository_pattern}
use svidmint.Attestor.Github.{GithubConfig, match_repository, validate_repository}

-- None of the patterns is malformed, and none matches.
abbrev pub Misses : String → List String → Type 0
Misses repo patterns = All (λ p. path_match p repo ≡ ok false) patterns

-- The first pattern that does not miss, with the patterns around it and what `path.Match` says.
pub record Stops (repo : String) (patterns : List String) (r : Result GlobError Bool) : Type 0 where
  pub before : List String
  pub pattern : String
  pub after : List String
  pub split : patterns ≡ before ++ pattern ∷ after
  pub missed : Misses repo before
  pub result : path_match pattern repo ≡ r

pub data Search (repo : String) (patterns : List String)
    : Result AttestError (Unit {0}) → Type 0 where
  allowed : Stops repo patterns (ok true) → Search repo patterns (ok tt)
  malformed :
      Stops repo patterns (err bad_pattern) → Search repo patterns (err bad_repository_pattern)
  refused : Misses repo patterns → Search repo patterns (err repository_not_allowed)

pub data Verdict (repo : String) (patterns : List String)
    : Result AttestError (Unit {0}) → Type 0 where
  unrestricted : patterns ≡ [] → Verdict repo patterns (ok tt)
  restricted :
      {r : Result AttestError (Unit {0})}
      → patterns ≢ []
      → Search repo patterns r
      → Verdict repo patterns r

Stops-cons :
    {r : Result GlobError Bool} {repo p : String} {ps : List String}
    → path_match p repo ≡ ok false
    → Stops repo ps r
    → Stops repo (p ∷ ps) r
Stops-cons {p = p} h s = record {
  before = p ∷ s.before;
  pattern = s.pattern;
  after = s.after;
  split = ap (λ l. p ∷ l) s.split;
  missed = (h, s.missed);
  result = s.result;
}

Stops-here :
    {r : Result GlobError Bool} (repo p : String) (ps : List String)
    → path_match p repo ≡ r
    → Stops repo (p ∷ ps) r
Stops-here repo p ps e = record {
  before = [];
  pattern = p;
  after = ps;
  split = refl;
  missed = tt;
  result = e;
}

Search-cons :
    {repo p : String} {ps : List String} (r : Result AttestError (Unit {0}))
    → path_match p repo ≡ ok false
    → Search repo ps r
    → Search repo (p ∷ ps) r
Search-cons _ h (allowed s) = allowed (Stops-cons h s)
Search-cons _ h (malformed s) = malformed (Stops-cons h s)
Search-cons _ h (refused m) = refused (h, m)

search_round :
    (repo p : String) (ps : List String) (r : Result GlobError Bool)
    → path_match p repo ≡ r
    → Search repo ps (match_repository repo ps)
    → Search repo (p ∷ ps) (match_repository repo (p ∷ ps))
unfolding match_repository
search_round repo p ps (ok true) e later =
    rw (match_repository, e) (allowed (Stops-here repo p ps e))
search_round repo p ps (ok false) e later =
    rw (match_repository, e) (Search-cons (match_repository repo ps) e later)
search_round repo p ps (err bad_pattern) e later =
    rw (match_repository, e) (malformed (Stops-here repo p ps e))
search_round repo p ps (err out_of_fuel) e later = absurd (path_match-HasFuel p repo e)

match_repository-Search :
    (repo : String) (patterns : List String) → Search repo patterns (match_repository repo patterns)
unfolding match_repository
match_repository-Search repo [] = refused tt
match_repository-Search repo (p ∷ ps) =
    search_round repo p ps (path_match p repo) refl (match_repository-Search repo ps)

verdict :
    (config : GithubConfig) (repo : String) (patterns : List String)
    → config.allowed_repositories ≡ patterns
    → Verdict repo patterns (validate_repository config repo)
unfolding validate_repository
verdict config repo [] e = rw e (unrestricted refl)
verdict config repo (p ∷ ps) e = rw e (restricted (λ h. cc) (match_repository-Search repo (p ∷ ps)))

-- Every repository is accepted where the allow list is empty. Otherwise the patterns are tried in
-- their order: the first that matches accepts the repository, a malformed one before that is an
-- error whatever stands behind it, and a repository that every pattern misses is refused.
pub validate_repository-Verdict :
    (config : GithubConfig) (repo : String)
    → Verdict repo config.allowed_repositories (validate_repository config repo)
validate_repository-Verdict config repo = verdict config repo config.allowed_repositories refl
