-- ===== src/Sdk/Client.antt =====
-- sdk/go/client.go and jwtsource.go
use Prim.Native.String.{◌++◌}
use svidmint.Base.{
  String, ◌==◌, not, Option, none, some, List, [], ◌∷◌, Result, ok, err, ◌>>=◌, ◌>>◌, guard,
  wrap_err, or_err, is_empty, eqb, if◌then◌else◌,
}
use svidmint.Attestor.{HttpRequest, HttpResponse}
use svidmint.Sdk.Types.{
  X509SvidResponse, JwtSvidResponse, BundleResponse, AttestRequest, HttpClient, Network, Formats,
  EvidenceJson, SdkError, server_url_required, attestor_required, audience_required, nil_attestor,
  gathering_evidence, marshaling_request, creating_request, executing_request, decoding_response,
  server_returned,
}
use svidmint.Sdk.Attestors.{ClientAttestor, evidence_type, gather_evidence, default_client}

-- `Client`; an attestor that is `none` is nil.
pub record Client : Type 0 where
  pub server_url : String
  pub attestor : Option ClientAttestor
  pub http_client : HttpClient

-- `Option`, by the functions that make one
pub data ClientOption : Type 0 where
  with_server_url : String → ClientOption
  with_attestor : Option ClientAttestor → ClientOption
  with_http_client : HttpClient → ClientOption

unfoldable pub apply : ClientOption → Client → Client
apply (with_server_url url) c = record c { server_url = url }
apply (with_attestor a) c = record c { attestor = a }
apply (with_http_client hc) c = record c { http_client = hc }

-- the loop over the options
unfoldable pub apply_all : List ClientOption → Client → Client
apply_all [] c = c
apply_all (o ∷ opts) c = apply_all opts (apply o c)

abbrev pub check_attestor : Client → Option ClientAttestor → Result SdkError Client
check_attestor c none = err attestor_required
check_attestor c (some _) = ok c

-- `New`
unfoldable pub new_client : List ClientOption → Result SdkError Client
unfolding apply_all
new_client opts =
    let c =
      apply_all opts (record { server_url = ""; attestor = none; http_client = default_client }) in
    if c.server_url == "" then err server_url_required else check_attestor c c.attestor

abbrev pub text_of : Option String → String
text_of none = ""
text_of (some body) = body

-- the part of `doPost` and `GetBundle` from the answer on
unfoldable pub read_response :
    {R : Type 0} → (String → Option R) → Option HttpResponse → Result SdkError R
read_response decode none = err executing_request
read_response decode (some resp) =
    if eqb resp.status_code 200
    then or_err resp.body decoding_response >>= (λ body. or_err (decode body) decoding_response)
    else err (server_returned resp.status_code (text_of resp.body))

abbrev pub post_request : String → String → HttpRequest
post_request url body = record {
  method = "POST";
  url = url;
  headers = ("Content-Type", "application/json") ∷ [];
  body = body;
}

abbrev pub get_request : String → HttpRequest
get_request url = record { method = "GET"; url = url; headers = []; body = "" }

module _ {TlsCertificate : Type 0} (fmt : Formats TlsCertificate) (json : EvidenceJson)
    (net : Network) where
  -- `doPost`, with the decoder of the result's type
  unfoldable pub do_post :
      {R : Type 0} → Client → String → AttestRequest → (String → Option R) → Result SdkError R
  unfolding read_response
  do_post c path body decode = do
    json_body ← or_err (fmt.json_attest_request body) marshaling_request
    guard (net.can_request "POST" (c.server_url ++ path)) creating_request
    read_response decode (net.http_do c.http_client (post_request (c.server_url ++ path) json_body))

  -- the first step of `AttestX509` and `AttestJWT`: the evidence, in a request
  unfoldable pub prepare_request : Client → String → List String → Result SdkError AttestRequest
  prepare_request c svid_type audience = do
    a ← or_err c.attestor nil_attestor
    evidence ← wrap_err gathering_evidence (gather_evidence json net a)
    ok (record {
      evidence_type = evidence_type a;
      evidence = fmt.base64_encode evidence;
      svid_type = svid_type;
      audience = audience;
    })

  -- `AttestX509`
  unfoldable pub attest_x509 : Client → Result SdkError X509SvidResponse
  unfolding prepare_request do_post
  attest_x509 c = do
    req_body ← prepare_request c "x509" []
    do_post c "/v1/attest" req_body fmt.json_x509_response

  -- `AttestJWT`
  unfoldable pub attest_jwt : Client → List String → Result SdkError JwtSvidResponse
  unfolding prepare_request do_post
  attest_jwt c audience = do
    req_body ← prepare_request c "jwt" audience
    do_post c "/v1/attest" req_body fmt.json_jwt_response

  -- `GetBundle`
  unfoldable pub get_bundle : Client → Result SdkError BundleResponse
  unfolding read_response
  get_bundle c = do
    guard (net.can_request "GET" (c.server_url ++ "/v1/bundle")) creating_request
    read_response fmt.json_bundle_response
        (net.http_do c.http_client (get_request (c.server_url ++ "/v1/bundle")))

  -- `GetJWTSVID` of a `JWTSource`, which is a client
  unfoldable pub get_jwt_svid : Client → List String → Result SdkError JwtSvidResponse
  unfolding attest_jwt
  get_jwt_svid c audience = do
    guard (not (is_empty audience)) audience_required
    attest_jwt c audience

-- `NewJWTSource`
unfoldable pub new_jwt_source : List ClientOption → Result SdkError Client
unfolding new_client
new_jwt_source opts = new_client opts
