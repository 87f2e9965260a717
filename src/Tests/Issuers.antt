-- ===== src/Tests/Issuers.antt =====
-- cloudflare_workers.go, deno_deploy.go and registry.go of internal/attestor at concrete inputs.
use svidmint.Base.{◌≡◌, refl, [], ◌∷◌, ok}
use svidmint.Base.Text.{join}
use svidmint.Base.Assoc.{lookup, insert}
use svidmint.Attestor.{AttestationResult}
use svidmint.Attestor.Jwks.{download_jwks}
use svidmint.Attestor.Cloudflare
use svidmint.Attestor.Cloudflare.{Team, Cloudflare, match_team}
use svidmint.Attestor.Cloudflare.Sound.{attest-IsAccepted_by_team}
use svidmint.Attestor.Deno
use svidmint.Attestor.Deno.{Deno, is_allowed_issuer, new_deno}
use svidmint.Attestor.Deno.Sound.{attest-IsAccepted_from_issuer, new_deno-not_empty}
use svidmint.Tests.Toy.{noon}
use svidmint.Tests.Sunny.{payload, sunny, sunny-SamePayload}

abbrev team : Team
team = record { name = "team"; certs_url = "https://certs" }

abbrev cloudflare : Cloudflare
cloudflare = record { teams = team ∷ []; key_cache = [] }

abbrev cloudflare_after : Cloudflare
cloudflare_after = record cloudflare {
  key_cache = ("https://certs", record { keys = "keys"; fetched_at = noon }) ∷ [];
}

abbrev cloudflare_result : AttestationResult
cloudflare_result = record {
  claims = ("cf.team", "team") ∷ ("cf.audience", "api") ∷ ("cf.email", "org/repo") ∷ [];
  expires_at = payload.expiry;
  raw_identity = "token";
}

cloudflare_attested :
    Cloudflare.attest sunny cloudflare "e" ≡ (ok cloudflare_result, cloudflare_after)
unfolding Cloudflare.attest Cloudflare.open_token Cloudflare.accept Cloudflare.fetch_jwks match_team
    download_jwks join lookup insert
cloudflare_attested = refl

attest-IsAccepted_by_team_example :
    (t : Team) × Cloudflare.Sound.IsAccepted sunny cloudflare cloudflare_after "e" t
      cloudflare_result
attest-IsAccepted_by_team_example =
    attest-IsAccepted_by_team sunny cloudflare cloudflare_after "e" cloudflare_result
      sunny-SamePayload cloudflare_attested

abbrev pub deno : Deno
deno = record { allowed_issuers = payload.issuer ∷ []; jwks_url_override = "" }

abbrev pub deno_result : AttestationResult
deno_result = record {
  claims =
      ("iss", payload.issuer)
      ∷ ("sub", "project")
      ∷ ("deno.project", "org/repo")
      ∷ ("repository", "org/repo")
      ∷ [];
  expires_at = payload.expiry;
  raw_identity = "project";
}

deno_attested : Deno.attest deno sunny "e" ≡ ok deno_result
unfolding Deno.attest is_allowed_issuer download_jwks insert
deno_attested = refl

attest-IsAccepted_from_issuer_example : Deno.Sound.IsAccepted deno sunny "e" deno_result
attest-IsAccepted_from_issuer_example =
    attest-IsAccepted_from_issuer deno sunny "e" deno_result sunny-SamePayload deno_attested
