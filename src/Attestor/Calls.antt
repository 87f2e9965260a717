-- ===== src/Attestor/Calls.antt =====
-- What the attestors call outside of this repository and of what is modelled of Go's library: HTTP,
-- the decoding of JSON, XML and dates, and go-jose. A `World` holds the answers during one call.
use svidmint.Base.{ℕ, ◌≡◌, String, Bool, Option, some, List}
use svidmint.Ca.{Time}

pub record HttpRequest : Type 0 where
  pub method : String
  pub url : String
  pub headers : List (String × String)
  pub body : String

-- `none` is a body that cannot be read.
pub record HttpResponse : Type 0 where
  pub status_code : ℕ
  pub body : Option String

pub record StsEvidence : Type 0 where
  pub method : String
  pub url : String
  pub headers : String
  pub body : String

pub record CallerIdentity : Type 0 where
  pub account : String
  pub arn : String
  pub user_id : String

-- A `jose.JSONWebKeySet` and a parsed JWT are opaque.
abbrev pub KeySet : Type 0
KeySet = String

abbrev pub Jwt : Type 0
Jwt = String

pub data Algorithm : Type 0 where
  es256 rs256 : Algorithm

-- The claims of a JWT: the registered ones, and any other string claim by its name ("" if absent).
pub record Payload : Type 0 where
  pub issuer : String
  pub subject : String
  pub audience : List String
  pub expiry : Option Time
  pub field : String → String

pub record World : Type 0 where
  pub now : Time
  -- `http.NewRequestWithContext` refuses some methods and URLs.
  pub can_request : String → String → Bool
  pub http_do : HttpRequest → Option HttpResponse
  pub canonical_header : String → String
  -- one string field of a JSON object, "" if it is absent
  pub json_field : String → String → Option String
  pub json_sts_evidence : String → Option StsEvidence
  pub json_headers : String → Option (List (String × String))
  pub json_key_set : String → Option KeySet
  pub xml_caller_identity : String → Option CallerIdentity
  pub parse_amz_date : String → Option Time
  pub parse_signed : String → List Algorithm → Option Jwt
  pub unsafe_claims : Jwt → Option Payload
  pub verify_claims : Jwt → KeySet → Option Payload
  -- `claims.Validate` of go-jose with an expected issuer at a time
  pub validate : Payload → String → Time → Bool

-- go-jose reads both from the one payload of the token.
pub record SamePayload (w : World) : Type 0 where
  pub same_payload :
      (tok : Jwt) (keys : KeySet) (u v : Payload)
      → w.unsafe_claims tok ≡ some u
      → w.verify_claims tok keys ≡ some v
      → u ≡ v
