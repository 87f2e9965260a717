-- ===== src/Sdk/Types.antt =====
-- sdk/go/types.go, the data of client.go and x509source.go, and what the client takes from other
-- packages: HTTP, the environment, encodings and crypto/tls.
use svidmint.Base.{ℕ, String, Bool, Option, List}
use svidmint.Base.Int.{ℤ}
use svidmint.Ca.{Time, PrivateKey, Der, Certificate, SpiffeId}
use svidmint.Attestor.{HttpRequest, HttpResponse}

-- `X509SVIDData`
pub record X509SvidData : Type 0 where
  pub cert_chain : List String
  pub private_key : String
  pub expires_at : String

-- `X509SVIDResponse`
pub record X509SvidResponse : Type 0 where
  pub spiffe_id : String
  pub svid : X509SvidData

-- `JWTSVIDData`
pub record JwtSvidData : Type 0 where
  pub token : String
  pub expires_at : String

-- `JWTSVIDResponse`
pub record JwtSvidResponse : Type 0 where
  pub spiffe_id : String
  pub svid : JwtSvidData

-- `BundleResponse`; the JWT authorities are arbitrary JSON.
pub record BundleResponse : Type 0 where
  pub trust_domain : String
  pub x509_authorities : List String
  pub jwt_authorities : List String
  pub refresh_hint : ℤ
  pub sequence_number : ℤ

-- `attestRequest`
pub record AttestRequest : Type 0 where
  pub evidence_type : String
  pub evidence : String
  pub svid_type : String
  pub audience : List String

-- An `http.Client` is known by its name.
abbrev pub HttpClient : Type 0
HttpClient = String

-- The network, the environment and the clock while one method runs.
pub record Network : Type 0 where
  pub now : Time
  pub getenv : String → String
  pub can_request : String → String → Bool
  pub http_do : HttpClient → HttpRequest → Option HttpResponse

-- The packages encoding/json, base64 and pem, crypto/x509 for EC keys, and crypto/tls.
pub record Formats (TlsCertificate : Type 0) : Type 0 where
  pub base64_encode : String → String
  pub json_attest_request : AttestRequest → Option String
  pub json_x509_response : String → Option X509SvidResponse
  pub json_jwt_response : String → Option JwtSvidResponse
  pub json_bundle_response : String → Option BundleResponse
  pub pem_decode : String → Option Der
  pub parse_ec_private_key : Der → Option PrivateKey
  pub x509_key_pair : String → String → Option TlsCertificate

-- encoding/json for the evidence: a map of one string, and the member "value" of an object.
pub record EvidenceJson : Type 0 where
  pub marshal_field : String → String → Option String
  pub value_of : String → Option String

pub data EvidenceError : Type 0 where
  no_github_environment creating_oidc_request fetching_oidc_token reading_oidc_response :
      EvidenceError
  parsing_oidc_response marshaling_evidence aws_not_implemented custom_failed : EvidenceError

pub data SdkError : Type 0 where
  server_url_required attestor_required audience_required : SdkError
  -- a call of a method of a nil interface, which stops the program
  nil_attestor : SdkError
  gathering_evidence : EvidenceError → SdkError
  marshaling_request creating_request executing_request decoding_response : SdkError
  server_returned : ℕ → String → SdkError
  empty_chain bad_certificate_pem bad_certificate no_private_key bad_key_pem bad_key : SdkError
  invalid_spiffe_id invalid_trust_domain bad_authority_pem bad_authority : SdkError
  source_closed no_svid_available no_bundle_available parsing_tls_certificate : SdkError

-- `x509svid.SVID` and `x509bundle.Bundle` of go-spiffe
pub record Svid : Type 0 where
  pub id : SpiffeId
  pub certificates : List Certificate
  pub private_key : PrivateKey

pub record Bundle : Type 0 where
  pub trust_domain : String
  pub x509_authorities : List Certificate
