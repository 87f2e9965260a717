-- ===== src/Attestor/Jwks.antt =====
-- The download of a JSON web key set, which github_oidc.go, cloudflare_workers.go and
-- deno_deploy.go of internal/attestor each make in the same steps.
use svidmint.Base.{String, eqb, [], Result, ◌>>=◌, ◌>>◌, guard, or_err}
use svidmint.Attestor.Types.{
  AttestError, bad_request, request_failed, unreadable_response, bad_status, bad_response,
}
use svidmint.Attestor.Calls.{HttpRequest, KeySet, World}

abbrev pub get : String → HttpRequest
get url = record { method = "GET"; url = url; headers = []; body = "" }

unfoldable pub download_jwks : World → String → Result AttestError KeySet
download_jwks w endpoint = do
  guard (w.can_request "GET" endpoint) bad_request
  resp ← or_err (w.http_do (get endpoint)) request_failed
  guard (eqb resp.status_code 200) bad_status
  body ← or_err resp.body unreadable_response
  or_err (w.json_key_set body) bad_response
