-- ===== src/Tests/Platforms.antt =====
-- internal/attestor at concrete inputs.
use svidmint.Base.{◌≡◌, ◌⊎◌, ◌↔◌, refl, true, none, some, [], ◌∷◌, ok, err}
use svidmint.Base.Int.{pos, ◌-ℤ◌}
use svidmint.Base.Text.{strip_prefix}
use svidmint.Base.Assoc.{lookup, insert}
use svidmint.Glob.{path_match}
use svidmint.Attestor.{
  AttestationResult, HttpRequest, KeySet, Jwt, es256, rs256, bad_repository_pattern,
}
use svidmint.Attestor.Jwks.{download_jwks}
use svidmint.Attestor.AwsLambda
use svidmint.Attestor.AwsLambda.{
  AwsLambdaConfig, is_label_char, label_then_domain, region_then_domain, sts_endpoint_matches,
  validate_endpoint, set_headers, prepare,
}
use svidmint.Attestor.AwsLambda.Endpoint.{IsStsUrl, validate_endpoint_iff}
use svidmint.Attestor.Tokens.{IsTokenOf}
use svidmint.Attestor.Github
use svidmint.Attestor.Github.{
  Github, GithubConfig, fresh_keys, fetch_jwks, match_repository, validate_repository, open_token,
  accept,
}
use svidmint.Attestor.Github.Cache.{IsCached, IsDownloaded}
use svidmint.Attestor.Github.Sound.{attest-IsAccepted}
use svidmint.Attestor.Github.Verdict.{Verdict, validate_repository-Verdict}
use svidmint.Tests.Toy.{noon}
use svidmint.Tests.Sunny.{payload, sunny}

abbrev aws : AwsLambdaConfig
aws = record { allowed_account_ids = "12" ∷ []; allowed_regions = []; sts_endpoint_override = "" }

abbrev signed_request : HttpRequest
signed_request = record {
  method = "POST";
  url = "https://sts.eu-west-1.amazonaws.com/";
  headers =
      ("X-Amz-Date", "20231114T221320Z")
      ∷ ("Content-Type", "application/x-www-form-urlencoded")
      ∷ [];
  body = "";
}

prepared : prepare aws sunny "e" ≡ ok (signed_request, noon)
unfolding prepare validate_endpoint sts_endpoint_matches region_then_domain label_then_domain
    is_label_char strip_prefix set_headers lookup insert ◌-ℤ◌
prepared = refl

abbrev caller : AttestationResult
caller = record {
  claims =
      ("aws.account_id", "12")
      ∷ ("aws.arn", "arn:aws:lambda:eu-west-1:12:function:f")
      ∷ ("aws.region", "eu-west-1")
      ∷ ("aws.function_name", "f")
      ∷ [];
  expires_at = some (pos 1_700_003_600_000_000_000);
  raw_identity = "arn:aws:lambda:eu-west-1:12:function:f";
}

validate_endpoint_example :
    (validate_endpoint aws "https://sts.amazonaws.com/" ≡ true)
    ↔ IsStsUrl "https://sts.amazonaws.com/"
validate_endpoint_example = validate_endpoint_iff aws "https://sts.amazonaws.com/" refl

abbrev github : Github
github = record {
  config = record {
    allowed_repositories = "org/*" ∷ [];
    issuer = "i";
    jwks_endpoint_override = "";
  };
  cached_jwks = none;
  jwks_fetched = pos 0;
}

abbrev github_after : Github
github_after = record github { cached_jwks = some "keys"; jwks_fetched = noon }

keys_fetched : fetch_jwks sunny github ≡ (ok "keys", github_after)
unfolding fetch_jwks fresh_keys download_jwks ◌-ℤ◌
keys_fetched = refl

abbrev github_result : AttestationResult
github_result = record {
  claims =
      ("github.repository", "org/repo")
      ∷ ("github.repository_owner", "org/repo")
      ∷ ("github.sha", "org/repo")
      ∷ ("github.ref", "org/repo")
      ∷ ("github.workflow", "org/repo")
      ∷ ("github.environment", "org/repo")
      ∷ ("github.runner_environment", "org/repo")
      ∷ ("github.actor", "org/repo")
      ∷ [];
  expires_at = payload.expiry;
  raw_identity = "token";
}

github_attested : Github.attest sunny github "e" ≡ (ok github_result, github_after)
unfolding Github.attest open_token accept validate_repository match_repository path_match fetch_jwks
    fresh_keys download_jwks ◌-ℤ◌
github_attested = refl

attest-IsAccepted_example :
    (tok : Jwt) × (keys : KeySet) × ((IsCached sunny github keys × (github_after ≡ github))
      ⊎ IsDownloaded sunny github github_after keys)
    × IsTokenOf sunny "oidc_token" (es256 ∷ rs256 ∷ []) "e" tok
    × Github.Sound.IsAccepted github_after.config sunny tok keys github_result
attest-IsAccepted_example =
    attest-IsAccepted sunny github github_after "e" github_result github_attested

abbrev three_patterns : GithubConfig
three_patterns = record github.config { allowed_repositories = "other/*" ∷ "org/*" ∷ "[" ∷ [] }

second_allows : validate_repository three_patterns "org/repo" ≡ ok tt
unfolding validate_repository match_repository path_match
second_allows = refl

third_is_malformed : validate_repository three_patterns "mine/repo" ≡ err bad_repository_pattern
unfolding validate_repository match_repository path_match
third_is_malformed = refl

validate_repository-Verdict_example :
    Verdict "org/repo" three_patterns.allowed_repositories
      (validate_repository three_patterns "org/repo")
validate_repository-Verdict_example = validate_repository-Verdict three_patterns "org/repo"
