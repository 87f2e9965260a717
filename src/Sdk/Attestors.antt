-- ===== src/Sdk/Attestors.antt =====
-- sdk/go/attestors.go: what each kind of attestor presents as evidence.
use Prim.Native.String.{◌++◌}
use svidmint.Base.{
  String, ◌==◌, not, ◌&&◌, Option, [], ◌∷◌, Result, err, ◌>>=◌, ◌>>◌, guard, or_err,
}
use svidmint.Attestor.{HttpRequest}
use svidmint.Sdk.Types.{
  HttpClient, Network, EvidenceJson, EvidenceError, no_github_environment, creating_oidc_request,
  fetching_oidc_token, reading_oidc_response, parsing_oidc_response, marshaling_evidence,
  aws_not_implemented, custom_failed,
}

-- Another implementation of the interface.
pub record CustomAttestor : Type 0 where
  pub type_of_evidence : String
  pub gather : Network → Option String

-- `ClientAttestor` and its implementations: a Cloudflare attestor has its access token, a GitHub
-- attestor its audience.
pub data ClientAttestor : Type 0 where
  cloudflare github_oidc : String → ClientAttestor
  aws_lambda : ClientAttestor
  custom : CustomAttestor → ClientAttestor

-- `EvidenceType`
unfoldable pub evidence_type : ClientAttestor → String
evidence_type (cloudflare _) = "cloudflare_workers"
evidence_type (github_oidc _) = "github_oidc"
evidence_type aws_lambda = "aws_sts"
evidence_type (custom a) = a.type_of_evidence

-- `http.DefaultClient`
abbrev pub default_client : HttpClient
default_client = "default"

abbrev pub token_request : String → String → HttpRequest
token_request url token = record {
  method = "GET";
  url = url;
  headers = ("Authorization", "bearer " ++ token) ∷ [];
  body = "";
}

-- `GatherEvidence` of the GitHub attestor; the status of the answer is not looked at.
unfoldable pub fetch_oidc_token : EvidenceJson → Network → String → Result EvidenceError String
fetch_oidc_token json net audience = do
  let req_url = net.getenv "ACTIONS_ID_TOKEN_REQUEST_URL"
  let req_token = net.getenv "ACTIONS_ID_TOKEN_REQUEST_TOKEN"
  guard (not (req_url == "") && not (req_token == "")) no_github_environment
  let url = req_url ++ ("&audience=" ++ audience)
  guard (net.can_request "GET" url) creating_oidc_request
  resp ← or_err (net.http_do default_client (token_request url req_token)) fetching_oidc_token
  body ← or_err resp.body reading_oidc_response
  value ← or_err (json.value_of body) parsing_oidc_response
  or_err (json.marshal_field "oidc_token" value) marshaling_evidence

-- `GatherEvidence`
unfoldable pub gather_evidence :
    EvidenceJson → Network → ClientAttestor → Result EvidenceError String
unfolding fetch_oidc_token
gather_evidence json net (cloudflare access_jwt) =
    or_err (json.marshal_field "access_jwt" access_jwt) marshaling_evidence
gather_evidence json net (github_oidc audience) = fetch_oidc_token json net audience
gather_evidence json net aws_lambda = err aws_not_implemented
gather_evidence json net (custom a) = or_err (a.gather net) custom_failed
