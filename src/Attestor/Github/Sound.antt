-- ===== src/Attestor/Github/Sound.antt =====
-- What `Attest` (github_oidc.go) has checked when it returns a result.
use mathlib.Core.List.{Mem, mem-cons_self, mem-cons_of_mem}
use svidmint.Base.{
  String, ◌==◌, not, ◌∙◌, ◌≡◌, ◌⊎◌, refl, Bool, true, false, some, List, [], ◌∷◌, Result, ok, err,
  inl, inr, bind_ok, or_err_ok, guard_ok, arith, ap, Result-cases,
}
use svidmint.Glob.{GlobError, path_match}
use svidmint.Attestor.Types.{AttestationResult, AttestError}
use svidmint.Attestor.Calls.{es256, rs256, World, KeySet, Jwt, Payload}
use svidmint.Attestor.Tokens.{IsTokenOf, tested-IsTokenOf}
use svidmint.Attestor.Github.{
  Github, GithubConfig, match_repository, validate_repository, open_token, accept, fetch_jwks,
  with_keys, attest,
}
use svidmint.Attestor.Github.Cache.{IsCached, IsDownloaded, fetch_jwks_sound}

-- The repository matches a pattern of the list.
abbrev pub IsAllowed : String → List String → Type 0
IsAllowed repo patterns =
    (pattern : String) × Mem pattern patterns × (path_match pattern repo ≡ ok true)

match_head :
    (repo pattern : String) (patterns : List String) (r : Result GlobError Bool) {u : Unit {0}}
    → path_match pattern repo ≡ r
    → match_repository repo (pattern ∷ patterns) ≡ ok u
    → (r ≡ ok true) ⊎ (match_repository repo patterns ≡ ok u)
unfolding match_repository
match_head repo pattern patterns (ok true) e h = inl refl
match_head repo pattern patterns (ok false) e h = inr (ground arith)
match_head repo pattern patterns (err x) e h = absurd (ground arith)

match_repository-IsAllowed :
    (repo : String) (patterns : List String) {u : Unit {0}}
    → match_repository repo patterns ≡ ok u
    → IsAllowed repo patterns
unfolding match_repository
match_repository-IsAllowed repo [] h = absurd (cc)
match_repository-IsAllowed repo (pattern ∷ patterns) h =
    elim (match_head repo pattern patterns (path_match pattern repo) refl h) [
      | inl matched ↦ (pattern, mem-cons_self, matched)
      | inr later ↦
          let (p, m, matched) = match_repository-IsAllowed repo patterns later in
          (p, mem-cons_of_mem pattern m, matched)
    ]

repositories_allow :
    (repo : String) (config : GithubConfig) (patterns : List String) {u : Unit {0}}
    → config.allowed_repositories ≡ patterns
    → validate_repository config repo ≡ ok u
    → (patterns ≡ []) ⊎ IsAllowed repo patterns
unfolding validate_repository
repositories_allow repo config [] e h = inl refl
repositories_allow repo config (p ∷ ps) e h =
    inr (match_repository-IsAllowed repo (p ∷ ps) (rw e at h))

-- A token whose signature the keys verify, whose issuer and dates go-jose has validated, and whose
-- repository is allowed; the claims are the token's.
pub record IsAccepted (config : GithubConfig) (w : World) (tok : Jwt) (keys : KeySet)
    (result : AttestationResult) : Type 0 where
  pub payload : Payload
  pub verified : w.verify_claims tok keys ≡ some payload
  pub validated : w.validate payload config.issuer w.now ≡ true
  pub repository :
      (config.allowed_repositories ≡ [])
      ⊎ IsAllowed (payload.field "repository") config.allowed_repositories
  pub claims :
      result.claims
      ≡ ("github.repository", payload.field "repository")
        ∷ ("github.repository_owner", payload.field "repository_owner")
        ∷ ("github.sha", payload.field "sha")
        ∷ ("github.ref", payload.field "ref")
        ∷ ("github.workflow", payload.field "workflow")
        ∷ ("github.environment", payload.field "environment")
        ∷ ("github.runner_environment", payload.field "runner_environment")
        ∷ ("github.actor", payload.field "actor")
        ∷ []
  pub expiry : result.expires_at ≡ payload.expiry

accept-IsAccepted :
    (config : GithubConfig) (w : World) (oidc_token : String) (tok : Jwt) (keys : KeySet)
    (result : AttestationResult)
    → accept config w oidc_token tok keys ≡ ok result
    → IsAccepted config w tok keys result
unfolding accept
accept-IsAccepted config w oidc_token tok keys result h =
    or_err_ok (w.verify_claims tok keys) _ _ h λ payload verified h₁.
      guard_ok (w.validate payload config.issuer w.now) _ _ h₁ λ validated h₂.
        bind_ok (validate_repository config (payload.field "repository")) _ h₂ λ _ allowed h₃.
          record {
            payload = payload;
            verified = verified;
            validated = validated;
            repository = repositories_allow _ config config.allowed_repositories refl allowed;
            claims = cc;
            expiry = cc;
          }

open_token-IsTokenOf :
    (w : World) (evidence oidc_token : String) (tok : Jwt)
    → open_token w evidence ≡ ok (oidc_token, tok)
    → IsTokenOf w "oidc_token" (es256 ∷ rs256 ∷ []) evidence tok
unfolding open_token
open_token-IsTokenOf w evidence oidc_token tok h =
    or_err_ok (w.json_field "oidc_token" evidence) _ _ h λ token given h₁.
      guard_ok (not (token == "")) _ _ h₁ λ some_token h₂.
        or_err_ok (w.parse_signed token _) _ _ h₂ λ parsed read h₃.
          let same : parsed ≡ tok = ground arith in
          tested-IsTokenOf w "oidc_token" (es256 ∷ rs256 ∷ []) evidence token tok given some_token
            (read ∙ ap some same)

abbrev Answer : Type 0
Answer = Result AttestError AttestationResult × Github

with_keys-IsAccepted :
    (w : World) (oidc_token : String) (tok : Jwt) (r : Result AttestError KeySet × Github)
    (a' : Github) (result : AttestationResult)
    → with_keys w (oidc_token, tok) r ≡ (ok result, a')
    → (keys : KeySet) × (r ≡ (ok keys, a')) × IsAccepted a'.config w tok keys result
with_keys-IsAccepted w oidc_token tok (err e, a) a' result h = absurd (ground arith)
with_keys-IsAccepted w oidc_token tok (ok keys, a) a' result h =
    let same : a ≡ a' = ap (λ (x : Answer). x.1) h in
    let accepted : accept a.config w oidc_token tok keys ≡ ok result = ap (λ (x : Answer). x.0) h in
    (keys, cc, accept-IsAccepted a'.config w oidc_token tok keys result (rw same at accepted))

-- An accepted GitHub token is the one in the evidence; it was verified with keys that are in the
-- cache for less than an hour or have just been downloaded, has a validated issuer and dates, and
-- names a repository that matches an allowed pattern, or no patterns are set; the result has the
-- token's claims and expiry.
pub attest-IsAccepted :
    (w : World) (a a' : Github) (evidence : String) (result : AttestationResult)
    → attest w a evidence ≡ (ok result, a')
    → (tok : Jwt) × (keys : KeySet) × ((IsCached w a keys × (a' ≡ a)) ⊎ IsDownloaded w a a' keys)
      × IsTokenOf w "oidc_token" (es256 ∷ rs256 ∷ []) evidence tok
      × IsAccepted a'.config w tok keys result
unfolding attest
attest-IsAccepted w a a' evidence result h = elim (Result-cases (open_token w evidence)) [
  | inr (e, failed) ↦ absurd (ground arith)
  | inl ((oidc_token, tok), opened) ↦
      let (keys, found, accepted) =
        with_keys-IsAccepted w oidc_token tok (fetch_jwks w a) a' result
          (rw (opened, attest) at h) in
      (
        tok,
        keys,
        fetch_jwks_sound w a a' keys found,
        open_token-IsTokenOf w evidence oidc_token tok opened,
        accepted,
      )
]
