-- ===== src/Server/Attest.antt =====
-- `handleAttest` (internal/server/attest.go)
pub mod Sound
pub mod Complete
pub mod Served
pub mod Ways
pub mod Counts
pub mod Stored
use svidmint.Base.{
  ℕ, String, ◌==◌, Bool, not, ◌&&◌, ◌||◌, Option, none, some, List, map, Result, ok, err, is_empty,
  if◌then◌else◌,
}
use svidmint.Base.Int.{ℤ, pos, leb_ℤ}
use svidmint.Ca.{Crypto, PrivateKey, Certificate, X509Svid, JwtSvid}
use svidmint.Ca.SelfSigned.{CaError, Draws, sign_x509_svid, sign_jwt_svid}
use svidmint.Entry.{RegistrationEntry}
use svidmint.Attestor.{World, AttestRequest, AttestationResult, AttestError}
use svidmint.Attestor.Registry
use svidmint.Attestor.Registry.{Attestor}
use svidmint.Server.Types.{
  X509SvidData, AttestResponse, Message, text, of_attestation, of_ca, attest_body, Response,
  attestation_total, attestation_duration, svid_issued_total, Server, Matched, match_error,
  no_entry, found, EntryStore, Codec, write_error, write_json, inc,
}

-- The clock and the services while one request is served, and what its signing call draws.
pub record Outside : Type 0 where
  pub world : World
  pub draws : Draws

-- the checks of the request's fields: the message of the first that fails
unfoldable pub refusal : AttestRequest → Option String
refusal req =
    if req.evidence_type == "" || req.evidence == "" || req.svid_type == ""
    then some "evidence_type, evidence, and svid_type are required"
    else if not (req.svid_type == "x509") && not (req.svid_type == "jwt")
    then some "svid_type must be x509 or jwt"
    else if req.svid_type == "jwt" && is_empty req.audience
    then some "audience is required for jwt svid_type"
    else none

abbrev pub entry_ttl : ℤ → ℤ
entry_ttl ttl = if leb_ℤ ttl (pos 0) then pos 3600 else ttl

abbrev pub timed : Server → AttestRequest → List Attestor → Server
timed s req attestors =
    inc (attestation_duration req.evidence_type) (record s { attestors = attestors })

module _ (c : Crypto) (enc : Codec) where
  abbrev pub pem_or_empty : Option String → String
  pem_or_empty none = ""
  pem_or_empty (some der) = enc.pem_encode "EC PRIVATE KEY" der

  -- `encodePrivateKey`, for the keys that the authority generates
  unfoldable pub encode_private_key : PrivateKey → String
  encode_private_key key = pem_or_empty (enc.marshal_ec_private_key key)

  abbrev pub key_pem : Option PrivateKey → String
  key_pem none = ""
  key_pem (some key) = encode_private_key key

  abbrev pub x509_response :
      AttestRequest → RegistrationEntry → Result CaError X509Svid → Result CaError AttestResponse
  x509_response req e (err x) = err x
  x509_response req e (ok svid) = ok (record {
    spiffe_id = e.spiffe_id;
    svid_type = req.svid_type;
    svid = some (record {
      cert_chain =
          map (λ (cert : Certificate). enc.pem_encode "CERTIFICATE" cert.raw) svid.cert_chain;
      private_key = key_pem svid.private_key;
      expires_at = enc.format_rfc3339 svid.expires_at;
    });
    expires_at = "";
    token = "";
  })

  abbrev pub jwt_response :
      AttestRequest → RegistrationEntry → Result CaError JwtSvid → Result CaError AttestResponse
  jwt_response req e (err x) = err x
  jwt_response req e (ok svid) = ok (record {
    spiffe_id = e.spiffe_id;
    svid_type = req.svid_type;
    svid = none;
    expires_at = enc.format_rfc3339 svid.expires_at;
    token = svid.token;
  })

  -- the switch on the type of SVID
  unfoldable pub issue :
      Server → Draws → AttestRequest → RegistrationEntry → Result CaError AttestResponse
  issue s draws req e =
      if req.svid_type == "x509"
      then x509_response req e (sign_x509_svid c s.ca e.spiffe_id none (entry_ttl e.ttl) draws)
      else jwt_response req e
          (sign_jwt_svid c s.ca e.spiffe_id req.audience (entry_ttl e.ttl) draws)

  abbrev pub respond : Server → AttestRequest → Result CaError AttestResponse → Response × Server
  respond s req (err x) = (write_error 500 "SVID_ISSUANCE_FAILED" (of_ca x), s)
  respond s req (ok resp) = (
    write_json 200 (attest_body resp),
    inc (svid_issued_total req.svid_type req.evidence_type)
        (inc (attestation_total req.evidence_type "success") s),
  )

  abbrev pub with_entry : Server → Draws → AttestRequest → Matched → Response × Server
  with_entry s draws req (found e) = respond s req (issue s draws req e)
  with_entry s draws req match_error =
      (write_error 403 "NO_MATCHING_ENTRY" (text "no matching registration entry found"), s)
  with_entry s draws req no_entry =
      (write_error 403 "NO_MATCHING_ENTRY" (text "no matching registration entry found"), s)

  abbrev pub with_attestation :
      EntryStore
      → Server
      → Draws
      → AttestRequest
      → Result AttestError AttestationResult × List Attestor
      → Response × Server
  with_attestation store s draws req (err x, attestors) = (
    write_error 401 "ATTESTATION_FAILED" (of_attestation x),
    inc (attestation_total "unknown" "error") (record s { attestors = attestors }),
  )
  with_attestation store s draws req (ok result, attestors) =
      with_entry (timed s req attestors) draws req (store.match_ req.evidence_type result.claims)

  abbrev pub with_evidence :
      EntryStore → Outside → Server → AttestRequest → Option String → Response × Server
  with_evidence store out s req none =
      (write_error 400 "INVALID_REQUEST" (text "evidence must be valid base64"), s)
  with_evidence store out s req (some evidence) =
      with_attestation store s out.draws req
        (Registry.attest out.world s.attestors req.evidence_type evidence)

  abbrev pub with_fields :
      EntryStore → Outside → Server → AttestRequest → Option String → Response × Server
  with_fields store out s req (some message) = (write_error 400 "INVALID_REQUEST" (text message), s)
  with_fields store out s req none = with_evidence store out s req (enc.base64_decode req.evidence)

  abbrev pub with_request : EntryStore → Outside → Server → Option AttestRequest → Response × Server
  with_request store out s none =
      (write_error 400 "INVALID_REQUEST" (text "invalid request body"), s)
  with_request store out s (some req) = with_fields store out s req (refusal req)

  -- `handleAttest`
  unfoldable pub handle_attest : EntryStore → Outside → Server → String → Response × Server
  unfolding refusal issue
  handle_attest store out s body = with_request store out s (enc.json_attest_request body)
