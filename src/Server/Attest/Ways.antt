-- ===== src/Server/Attest/Ways.antt =====
-- The ways out of `handleAttest` (attest.go), each with its reason.
use svidmint.Base.{String, ◌≡◌, ◌≢◌, ◌⊎◌, none, some, List, ◌∷◌, ok, err}
use svidmint.Ca.{Crypto}
use svidmint.Ca.SelfSigned.{CaError, SelfSignedCa, sign_x509_svid, sign_jwt_svid}
use svidmint.Entry.{RegistrationEntry}
use svidmint.Attestor.{AttestRequest, AttestationResult, AttestError}
use svidmint.Attestor.Registry
use svidmint.Attestor.Registry.{Attestor}
use svidmint.Server.Types.{
  AttestResponse, Response, Server, found, EntryStore, Codec, text, of_attestation, of_ca,
  write_error, write_json, attestation_total, attestation_duration, attest_body, Message,
}
use svidmint.Server.Attest.{Outside, entry_ttl}
use svidmint.Server.Attest.Complete.{IsComplete}
use svidmint.Server.Attest.Served.{IsServed}

-- The body is no request, or an incomplete one, or its evidence is no base64.
pub data IsRefused (enc : Codec) (body : String) : Type 0 where
  no_request : enc.json_attest_request body ≡ none → IsRefused enc body
  incomplete :
      (req : AttestRequest)
      → enc.json_attest_request body ≡ some req
      → (IsComplete req → ⊥)
      → IsRefused enc body
  no_evidence :
      (req : AttestRequest)
      → enc.json_attest_request body ≡ some req
      → enc.base64_decode req.evidence ≡ none
      → IsRefused enc body

-- The body is a complete request with this evidence.
pub record IsAsked (enc : Codec) (body : String) (req : AttestRequest) (evidence : String)
    : Type 0 where
  pub parsed : enc.json_attest_request body ≡ some req
  pub complete : IsComplete req
  pub decoded : enc.base64_decode req.evidence ≡ some evidence

-- The authority's refusal to sign what the request and the entry ask for.
abbrev pub IsUnsigned :
    Crypto → SelfSignedCa → Outside → AttestRequest → RegistrationEntry → CaError → Type 0
IsUnsigned c ca out req e x =
    ((req.svid_type ≡ "x509")
      × (sign_x509_svid c ca e.spiffe_id none (entry_ttl e.ttl) out.draws ≡ err x))
    ⊎ ((req.svid_type ≢ "x509")
        × (sign_jwt_svid c ca e.spiffe_id req.audience (entry_ttl e.ttl) out.draws ≡ err x))

-- The ways out. A request that is refused before its evidence is looked at leaves the server as it
-- was; a failed attestation is counted as an error, every other as a duration, and an SVID twice.
pub data Outcome (c : Crypto) (enc : Codec) (store : EntryStore) (out : Outside) (s : Server)
    (body : String) : Response × Server → Type 0 where
  bad_request :
      (m : Message)
      → IsRefused enc body
      → Outcome c enc store out s body (write_error 400 "INVALID_REQUEST" m, s)
  unattested :
      (req : AttestRequest) (evidence : String) (x : AttestError) (attestors : List Attestor)
      → IsAsked enc body req evidence
      → Registry.attest out.world s.attestors req.evidence_type evidence ≡ (err x, attestors)
      → Outcome c enc store out s body (
        write_error 401 "ATTESTATION_FAILED" (of_attestation x),
        record s {
          attestors = attestors;
          metrics = attestation_total "unknown" "error" ∷ s.metrics;
        },
      )
  no_match :
      (req : AttestRequest) (evidence : String) (result : AttestationResult)
      (attestors : List Attestor)
      → IsAsked enc body req evidence
      → Registry.attest out.world s.attestors req.evidence_type evidence ≡ (ok result, attestors)
      → ((e : RegistrationEntry) → store.match_ req.evidence_type result.claims ≢ found e)
      → Outcome c enc store out s body (
        write_error 403 "NO_MATCHING_ENTRY" (text "no matching registration entry found"),
        record s {
          attestors = attestors;
          metrics = attestation_duration req.evidence_type ∷ s.metrics;
        },
      )
  not_issued :
      (req : AttestRequest) (evidence : String) (result : AttestationResult)
      (attestors : List Attestor) (e : RegistrationEntry) (x : CaError)
      → IsAsked enc body req evidence
      → Registry.attest out.world s.attestors req.evidence_type evidence ≡ (ok result, attestors)
      → store.match_ req.evidence_type result.claims ≡ found e
      → IsUnsigned c s.ca out req e x
      → Outcome c enc store out s body (
        write_error 500 "SVID_ISSUANCE_FAILED" (of_ca x),
        record s {
          attestors = attestors;
          metrics = attestation_duration req.evidence_type ∷ s.metrics;
        },
      )
  issued :
      (resp : AttestResponse) (s' : Server)
      → IsServed c enc store out s s' body resp
      → s'.ca ≡ s.ca
      → Outcome c enc store out s body (write_json 200 (attest_body resp), s')
