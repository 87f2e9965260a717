-- ===== src/Attestor/Types.antt =====
-- internal/attestor/types.go, and the errors of the attestors.
use svidmint.Base.{String, Option, List}
use svidmint.Ca.{Time}
use svidmint.Entry.{Claims}

-- `none` is the zero time.
pub record AttestationResult : Type 0 where
  pub claims : Claims
  pub expires_at : Option Time
  pub raw_identity : String

pub record AttestRequest : Type 0 where
  pub evidence_type : String
  pub evidence : String
  pub svid_type : String
  pub audience : List String
  pub csr : String

-- The places where an attestor returns an error.
pub data AttestError : Type 0 where
  bad_evidence missing_token bad_headers bad_endpoint missing_date bad_date : AttestError
  too_old too_far_ahead : AttestError
  bad_request request_failed unreadable_response bad_status bad_response : AttestError
  account_not_allowed repository_not_allowed bad_repository_pattern : AttestError
  bad_jwt bad_claims bad_signature issuer_mismatch invalid_token expired : AttestError
  no_team untrusted_issuer : AttestError
  jwks_failed : AttestError → AttestError
  no_attestor : AttestError
