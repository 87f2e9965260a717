-- ===== src/Attestor/Github.antt =====
-- internal/attestor/github_oidc.go
pub mod Cache
pub mod Sound
pub mod Verdict
use Prim.Native.String.{◌++◌}
use svidmint.Base.{
  String, ◌==◌, Bool, true, false, not, ◌&&◌, Option, none, some, List, [], ◌∷◌, Result, ok, err,
  ◌>>=◌, ◌>>◌, guard, or_err, wrap_err, if◌then◌else◌,
}
use svidmint.Base.Int.{pos, ltb_ℤ, ◌-ℤ◌}
use svidmint.Base.{◌*◌}
use svidmint.Ca.{Time, Duration, second}
use svidmint.Glob.{GlobError, path_match}
use svidmint.Attestor.Types.{
  AttestationResult, AttestError, bad_evidence, missing_token, bad_jwt, bad_signature,
  issuer_mismatch, invalid_token, repository_not_allowed, bad_repository_pattern, jwks_failed,
}
use svidmint.Attestor.Calls.{World, KeySet, Jwt, Payload, es256, rs256}
use svidmint.Attestor.Jwks.{download_jwks}

pub record GithubConfig : Type 0 where
  pub allowed_repositories : List String
  pub issuer : String
  pub jwks_endpoint_override : String

-- The attestor: its configuration and its cache of keys.
pub record Github : Type 0 where
  pub config : GithubConfig
  pub cached_jwks : Option KeySet
  pub jwks_fetched : Time

-- `NewGitHubOIDCAttestor`
unfoldable pub new_github : GithubConfig → Github
new_github config = record {
  config = record config {
    issuer =
        if config.issuer == ""
        then "https://token.actions.githubusercontent.com"
        else config.issuer;
  };
  cached_jwks = none;
  jwks_fetched = pos 0;
}

abbrev pub jwks_cache_duration : Duration
jwks_cache_duration = pos (3600 * second)

abbrev pub endpoint : GithubConfig → String
endpoint config =
    if config.jwks_endpoint_override == ""
    then config.issuer ++ "/.well-known/jwks"
    else config.jwks_endpoint_override

-- the key set in the cache, if it is fresh
unfoldable pub fresh_keys : World → Github → Option KeySet
fresh_keys w a = if ltb_ℤ (w.now -ℤ a.jwks_fetched) jwks_cache_duration then a.cached_jwks else none

abbrev pub remember :
    World → Github → Result AttestError KeySet → Result AttestError KeySet × Github
remember w a (ok keys) = (ok keys, record a { cached_jwks = some keys; jwks_fetched = w.now })
remember w a (err e) = (err e, a)

-- `fetchJWKS`
unfoldable pub fetch_jwks : World → Github → Result AttestError KeySet × Github
unfolding fresh_keys
fetch_jwks w a = elim (fresh_keys w a) [
  | some keys ↦ (ok keys, a)
  | none ↦ remember w a (download_jwks w (endpoint a.config))
]

-- `validateRepository`: the loop over the patterns
unfoldable pub match_repository : String → List String → Result AttestError (Unit {0})
match_repository repo [] = err repository_not_allowed
match_repository repo (pattern ∷ patterns) =
    let rest = match_repository repo patterns in
    elim (path_match pattern repo) [
      | err _ ↦ err bad_repository_pattern
      | ok matched ↦ if matched then ok tt else rest
    ]

unfoldable pub validate_repository : GithubConfig → String → Result AttestError (Unit {0})
validate_repository config repo = elim config.allowed_repositories [
  | [] ↦ ok tt
  | pattern ∷ patterns ↦ match_repository repo (pattern ∷ patterns)
]

-- `Attest` up to the keys
unfoldable pub open_token : World → String → Result AttestError (String × Jwt)
open_token w evidence = do
  oidc_token ← or_err (w.json_field "oidc_token" evidence) bad_evidence
  guard (not (oidc_token == "")) missing_token
  tok ← or_err (w.parse_signed oidc_token (es256 ∷ rs256 ∷ [])) bad_jwt
  ok (oidc_token, tok)

-- `Attest` from the keys on
unfoldable pub accept :
    GithubConfig → World → String → Jwt → KeySet → Result AttestError AttestationResult
accept config w oidc_token tok jwks = do
  claims ← or_err (w.verify_claims tok jwks) bad_signature
  guard (w.validate claims config.issuer w.now)
      (if claims.issuer == config.issuer then invalid_token else issuer_mismatch)
  validate_repository config (claims.field "repository")
  ok (record {
    claims =
        ("github.repository", claims.field "repository")
        ∷ ("github.repository_owner", claims.field "repository_owner")
        ∷ ("github.sha", claims.field "sha")
        ∷ ("github.ref", claims.field "ref")
        ∷ ("github.workflow", claims.field "workflow")
        ∷ ("github.environment", claims.field "environment")
        ∷ ("github.runner_environment", claims.field "runner_environment")
        ∷ ("github.actor", claims.field "actor")
        ∷ [];
    expires_at = claims.expiry;
    raw_identity = oidc_token;
  })

abbrev pub with_keys :
    World
    → String × Jwt
    → Result AttestError KeySet × Github
    → Result AttestError AttestationResult × Github
with_keys w (oidc_token, tok) (keys, a) =
    (wrap_err jwks_failed keys >>= accept a.config w oidc_token tok, a)

-- `Attest`: the result, and the attestor with its cache afterwards.
unfoldable pub attest : World → Github → String → Result AttestError AttestationResult × Github
attest w a evidence = elim (open_token w evidence) [
  | err e ↦ (err e, a)
  | ok opened ↦ with_keys w opened (fetch_jwks w a)
]
