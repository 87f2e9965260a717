-- ===== src/Server/Types.antt =====
-- The responses of internal/server (attest.go, validate.go, bundle.go, errors.go), its counters
-- (middleware.go), and what the handlers take from the encoding packages.
use svidmint.Base.{ℕ, String, Bool, Option, List, ◌∷◌}
use svidmint.Base.Int.{ℤ}
use svidmint.Ca.{Time, PrivateKey, PublicKey, Der}
use svidmint.Ca.SelfSigned.{SelfSignedCa, CaError, Jwk}
use svidmint.Attestor.{AttestRequest, AttestError}
use svidmint.Attestor.Registry.{Attestor}
use svidmint.Entry.{RegistrationEntry, Claims}

-- `x509SVIDData`
pub record X509SvidData : Type 0 where
  pub cert_chain : List String
  pub private_key : String
  pub expires_at : String

-- "" and `none` are fields that the JSON leaves out.
pub record AttestResponse : Type 0 where
  pub spiffe_id : String
  pub svid_type : String
  pub svid : Option X509SvidData
  pub expires_at : String
  pub token : String

pub record ValidateRequest : Type 0 where
  pub svid_type : String
  pub svid : String

-- A text of the handler, or that of the error it has received.
pub data Message : Type 0 where
  text : String → Message
  of_attestation : AttestError → Message
  of_ca : CaError → Message

pub record ValidateResponse : Type 0 where
  pub valid : Bool
  pub spiffe_id : String
  pub expires_at : ℤ
  pub error : Message

pub record X509AuthorityResp : Type 0 where
  pub asn1 : String

pub record JwtAuthorityResp : Type 0 where
  pub key_id : String
  pub public_key : List (String × String)

pub record BundleResponse : Type 0 where
  pub trust_domain : String
  pub x509_authorities : List X509AuthorityResp
  pub jwt_authorities : List JwtAuthorityResp
  pub refresh_hint : ℕ
  pub sequence_number : ℕ

-- The JSON bodies; `raw` is written as it is.
pub data Body : Type 0 where
  error_body : String → Message → Body
  attest_body : AttestResponse → Body
  validate_body : ValidateResponse → Body
  bundle_body : BundleResponse → Body
  health_body : String → Bool → Bool → Body
  raw : String → Body

pub record Response : Type 0 where
  pub status : ℕ
  pub body : Body

-- Increments of the Prometheus counters, with their labels, and observations of the histogram.
pub data Metric : Type 0 where
  attestation_total : String → String → Metric
  attestation_duration : String → Metric
  svid_issued_total : String → String → Metric
  svid_validated_total : String → String → Metric

-- The server; `metrics` has the latest first.
pub record Server : Type 0 where
  pub ca : SelfSignedCa
  pub attestors : List Attestor
  pub metrics : List Metric

-- What `Store.Match` returns: an error, nil, or an entry.
pub data Matched : Type 0 where
  match_error no_entry : Matched
  found : RegistrationEntry → Matched

-- The method of the interface `Store` that the server calls.
pub record EntryStore : Type 0 where
  pub match_ : String → Claims → Matched

pub data KeyParts : Type 0 where
  ec : String → String → String → KeyParts
  rsa : String → String → KeyParts
  other_key : KeyParts

-- The packages encoding/json, base64 and pem, crypto/x509 and time.
pub record Codec : Type 0 where
  pub json_attest_request : String → Option AttestRequest
  pub json_validate_request : String → Option ValidateRequest
  pub base64_decode : String → Option String
  pub base64_encode : String → String
  pub base64_raw_url : String → String
  pub pem_encode : String → Der → String
  -- the first block of a text and what follows it
  pub pem_decode : String → Option (Der × String)
  pub marshal_jwks : List Jwk → Option String
  pub marshal_ec_private_key : PrivateKey → Option Der
  pub format_rfc3339 : Time → String
  pub unix : Time → ℤ
  -- the curve and the coordinates, or the modulus and the exponent, of a key
  pub key_parts : PublicKey → KeyParts

-- `writeError`
unfoldable pub write_error : ℕ → String → Message → Response
write_error status code message = record { status = status; body = error_body code message }

-- `writeJSON`
unfoldable pub write_json : ℕ → Body → Response
write_json status body = record { status = status; body = body }

-- `counter.WithLabelValues(…).Inc()`
abbrev pub inc : Metric → Server → Server
inc m s = record s { metrics = m ∷ s.metrics }
