-- ===== src/Server/Attest/Served.antt =====
-- What `handleAttest` (attest.go) has done when it answers with status 200.
use svidmint.Base.{String, ◌≡◌, refl, Option, none, some, List, ◌∷◌, Result, ok, err, arith}
use svidmint.Ca.{Crypto, ReadsBack}
use svidmint.Ca.SelfSigned.{CaError}
use svidmint.Server.Attest.Sound.{IsIssued, issue-IsIssued}
use svidmint.Server.Attest.Complete.{IsComplete, refusal-IsComplete}
use svidmint.Entry.{RegistrationEntry}
use svidmint.Attestor.{AttestRequest, AttestationResult, AttestError}
use svidmint.Attestor.Registry
use svidmint.Attestor.Registry.{Attestor}
use svidmint.Server.Types.{
  AttestResponse, attest_body, Response, Server, Matched, found, match_error, no_entry, EntryStore,
  Codec, write_error, write_json, attestation_total, attestation_duration, svid_issued_total,
}
use svidmint.Server.Attest.{
  Outside, timed, refusal, issue, respond, with_entry, with_attestation, with_evidence, with_fields,
  with_request, handle_attest,
}

-- The workload has been attested, an entry has matched its claims, and its SVID was signed.
pub record IsServed (c : Crypto) (enc : Codec) (store : EntryStore) (out : Outside) (s s' : Server)
    (body : String) (resp : AttestResponse) : Type 0 where
  pub req : AttestRequest
  pub parsed : enc.json_attest_request body ≡ some req
  pub complete : IsComplete req
  pub evidence : String
  pub decoded : enc.base64_decode req.evidence ≡ some evidence
  pub result : AttestationResult
  pub attested :
      Registry.attest out.world s.attestors req.evidence_type evidence ≡ (ok result, s'.attestors)
  pub entry : RegistrationEntry
  pub matched : store.match_ req.evidence_type result.claims ≡ found entry
  pub issued : IsIssued c enc s.ca out req entry resp
  pub named : resp.spiffe_id ≡ entry.spiffe_id
  pub counted :
      s'.metrics
      ≡ svid_issued_total req.svid_type req.evidence_type
        ∷ attestation_total req.evidence_type "success"
        ∷ attestation_duration req.evidence_type
        ∷ s.metrics

module _ (c : Crypto) (enc : Codec) (store : EntryStore) (out : Outside) (s' : Server)
    (resp : AttestResponse) where
  abbrev Success : Response × Server → Type 0
  Success answer = answer ≡ (write_json 200 (attest_body resp), s')

  respond_sound :
      (s : Server) (req : AttestRequest) (r : Result CaError AttestResponse)
      → Success (respond c enc s req r)
      → (r ≡ ok resp)
        × (s'.attestors ≡ s.attestors)
        × (s'.metrics
            ≡ svid_issued_total req.svid_type req.evidence_type
              ∷ attestation_total req.evidence_type "success"
              ∷ s.metrics)
  unfolding write_json write_error
  respond_sound s req (err x) h = absurd (ground arith)
  respond_sound s req (ok found_resp) h = (ground arith, ground arith, ground arith)

  with_entry_sound :
      (s : Server) (req : AttestRequest) (m : Matched)
      → Success (with_entry c enc s out.draws req m)
      → (e : RegistrationEntry) × (m ≡ found e)
        × (issue c enc s out.draws req e ≡ ok resp)
        × (s'.attestors ≡ s.attestors)
        × (s'.metrics
            ≡ svid_issued_total req.svid_type req.evidence_type
              ∷ attestation_total req.evidence_type "success"
              ∷ s.metrics)
  unfolding write_json write_error
  with_entry_sound s req match_error h = absurd (ground arith)
  with_entry_sound s req no_entry h = absurd (ground arith)
  with_entry_sound s req (found e) h =
      let (issued, same, counted) = respond_sound s req (issue c enc s out.draws req e) h in
      (e, refl, issued, same, counted)

  abbrev Answer : Type 0
  Answer = Result AttestError AttestationResult × List Attestor

  with_attestation_sound :
      (s : Server) (req : AttestRequest) (answer : Answer)
      → Success (with_attestation c enc store s out.draws req answer)
      → (result : AttestationResult) × (e : RegistrationEntry) × (answer
          ≡ (ok result, s'.attestors))
        × (store.match_ req.evidence_type result.claims ≡ found e)
        × (issue c enc (timed s req answer.1) out.draws req e ≡ ok resp)
        × (s'.metrics
            ≡ svid_issued_total req.svid_type req.evidence_type
              ∷ attestation_total req.evidence_type "success"
              ∷ attestation_duration req.evidence_type
              ∷ s.metrics)
  unfolding write_json write_error
  with_attestation_sound s req (err x, attestors) h = absurd (ground arith)
  with_attestation_sound s req (ok result, attestors) h =
      let (e, matched, issued, same, counted) =
        with_entry_sound (timed s req attestors) req (store.match_ req.evidence_type result.claims)
          h in
      (result, e, cc, matched, issued, counted)

  pub IsIssued-named :
      (s : Server) (req : AttestRequest) (e : RegistrationEntry)
      → IsIssued c enc s.ca out req e resp
      → resp.spiffe_id ≡ e.spiffe_id
  IsIssued-named s req e (IsIssued.x509_issued svid _ _ same) = ground arith
  IsIssued-named s req e (IsIssued.jwt_issued svid _ _ same) = ground arith

  with_evidence-IsServed :
      (s : Server) (body : String) (req : AttestRequest) (o : Option String)
      → ReadsBack c
      → enc.json_attest_request body ≡ some req
      → refusal req ≡ none
      → enc.base64_decode req.evidence ≡ o
      → Success (with_evidence c enc store out s req o)
      → IsServed c enc store out s s' body resp
  unfolding write_json write_error
  with_evidence-IsServed s body req none laws parsed complete decoded h = absurd (ground arith)
  with_evidence-IsServed s body req (some evidence) laws parsed complete decoded h =
      let answer = Registry.attest out.world s.attestors req.evidence_type evidence in
      let (result, e, attested, matched, made, counted) = with_attestation_sound s req answer h in
      let issued = issue-IsIssued c enc out (timed s req answer.1) resp req e laws made in
      record {
        req = req;
        parsed = parsed;
        complete = refusal-IsComplete req complete;
        evidence = evidence;
        decoded = decoded;
        result = result;
        attested = attested;
        entry = e;
        matched = matched;
        issued = issued;
        named = IsIssued-named s req e issued;
        counted = counted;
      }

  with_fields-IsServed :
      (s : Server) (body : String) (req : AttestRequest) (o : Option String)
      → ReadsBack c
      → enc.json_attest_request body ≡ some req
      → refusal req ≡ o
      → Success (with_fields c enc store out s req o)
      → IsServed c enc store out s s' body resp
  unfolding write_json write_error
  with_fields-IsServed s body req (some message) laws parsed complete h = absurd (ground arith)
  with_fields-IsServed s body req none laws parsed complete h =
      with_evidence-IsServed s body req (enc.base64_decode req.evidence) laws parsed complete refl h

  with_request-IsServed :
      (s : Server) (body : String) (o : Option AttestRequest)
      → ReadsBack c
      → enc.json_attest_request body ≡ o
      → Success (with_request c enc store out s o)
      → IsServed c enc store out s s' body resp
  unfolding write_json write_error
  with_request-IsServed s body none laws parsed h = absurd (ground arith)
  with_request-IsServed s body (some req) laws parsed h =
      with_fields-IsServed s body req (refusal req) laws parsed refl h

  -- A response of status 200 with an SVID is given only to a complete request, with an evidence
  -- type, evidence, and x509 or jwt as the type of SVID, the latter with an audience, whose
  -- evidence was attested by the registry, whose claims an entry of the store matched, and for
  -- whose SPIFFE ID the authority signed an X.509 or JWT SVID of the requested type; the response
  -- carries that entry's SPIFFE ID and that SVID, and the success and the issue are counted once
  -- each. (`ReadsBack` says that certificates keep their fields.)
  pub handle_attest-IsServed :
      (s : Server) (body : String)
      → ReadsBack c
      → handle_attest c enc store out s body ≡ (write_json 200 (attest_body resp), s')
      → IsServed c enc store out s s' body resp
  unfolding handle_attest
  handle_attest-IsServed s body laws h =
      with_request-IsServed s body (enc.json_attest_request body) laws refl h
