-- ===== src/Server/Attest/Counts.antt =====
-- Every way out of `handleAttest` (attest.go): its status, its reason, what it counts, and what it
-- leaves.
use svidmint.Base.{
  String, ◌≡◌, ◌∙◌, refl, sym, Option, none, some, List, Result, ok, err, inl, inr, ◌==◌, eq_iff,
  Bool-cases, arith,
}
use svidmint.Ca.{Crypto, ReadsBack, X509Svid, JwtSvid}
use svidmint.Ca.SelfSigned.{CaError}
use svidmint.Entry.{RegistrationEntry}
use svidmint.Attestor.{AttestRequest, AttestationResult, AttestError}
use svidmint.Attestor.Registry
use svidmint.Attestor.Registry.{Attestor}
use svidmint.Server.Types.{
  AttestResponse, Server, Matched, found, match_error, no_entry, EntryStore, Codec,
}
use svidmint.Server.Attest.{
  Outside, refusal, issue, x509_response, jwt_response, respond, timed, with_entry,
  with_attestation, with_evidence, with_fields, with_request, handle_attest,
}
use svidmint.Server.Attest.Complete.{IsComplete, refusal-IsComplete, IsComplete-refusal}
use svidmint.Server.Attest.Sound.{issue-IsIssued}
use svidmint.Server.Attest.Served.{IsIssued-named}
use svidmint.Server.Attest.Ways.{
  no_request, incomplete, no_evidence, IsAsked, IsUnsigned, Outcome, bad_request, unattested,
  no_match, not_issued,
}

module _ (c : Crypto) (enc : Codec) (store : EntryStore) (out : Outside) (s : Server)
    (laws : ReadsBack c) (body : String) where
  x509_unsigned :
      (req : AttestRequest) (e : RegistrationEntry) (r : Result CaError X509Svid) {x : CaError}
      → x509_response c enc req e r ≡ err x
      → r ≡ err x
  x509_unsigned req e (ok svid) h = absurd (cc)
  x509_unsigned req e (err x) h = ground arith

  jwt_unsigned :
      (req : AttestRequest) (e : RegistrationEntry) (r : Result CaError JwtSvid) {x : CaError}
      → jwt_response c enc req e r ≡ err x
      → r ≡ err x
  jwt_unsigned req e (ok svid) h = absurd (cc)
  jwt_unsigned req e (err x) h = ground arith

  issue-IsUnsigned :
      (s' : Server) (req : AttestRequest) (e : RegistrationEntry) (x : CaError)
      → issue c enc s' out.draws req e ≡ err x
      → IsUnsigned c s'.ca out req e x
  unfolding issue
  issue-IsUnsigned s' req e x h = elim (Bool-cases (req.svid_type == "x509")) [
    | inl x509 ↦ inl ((eq_iff _ _).0 x509, x509_unsigned req e _ (rw (x509, issue) at h))
    | inr other ↦ inr (
      λ same. ground (arith, eq_iff req.svid_type "x509"),
      jwt_unsigned req e _ (rw (other, issue) at h),
    )
  ]

  module _ (req : AttestRequest) (evidence : String) (asked : IsAsked enc body req evidence) where
    respond-Outcome :
        (result : AttestationResult) (attestors : List Attestor) (e : RegistrationEntry)
        (r : Result CaError AttestResponse)
        → Registry.attest out.world s.attestors req.evidence_type evidence ≡ (ok result, attestors)
        → store.match_ req.evidence_type result.claims ≡ found e
        → issue c enc (timed s req attestors) out.draws req e ≡ r
        → Outcome c enc store out s body (respond c enc (timed s req attestors) req r)
    respond-Outcome result attestors e (err x) attested matched made =
        not_issued req evidence result attestors e x asked attested matched
          (issue-IsUnsigned (timed s req attestors) req e x made)
    respond-Outcome result attestors e (ok resp) attested matched made =
        let signed = issue-IsIssued c enc out (timed s req attestors) resp req e laws made in
        Outcome.issued resp _
          (record {
            req = req;
            parsed = asked.parsed;
            complete = asked.complete;
            evidence = evidence;
            decoded = asked.decoded;
            result = result;
            attested = attested;
            entry = e;
            matched = matched;
            issued = signed;
            named = IsIssued-named c enc store out s resp s req e signed;
            counted = refl;
          })
          refl

    with_entry-Outcome :
        (result : AttestationResult) (attestors : List Attestor) (m : Matched)
        → Registry.attest out.world s.attestors req.evidence_type evidence ≡ (ok result, attestors)
        → store.match_ req.evidence_type result.claims ≡ m
        → Outcome c enc store out s body (with_entry c enc (timed s req attestors) out.draws req m)
    with_entry-Outcome result attestors match_error attested none_found =
        no_match req evidence result attestors asked attested
          (λ e h. absurd (other (sym none_found ∙ h)))
      where
        other : {P : Type 0} {e : RegistrationEntry} → ◌≡◌ {A = Matched} match_error (found e) → P
        other h = absurd (cc)
    with_entry-Outcome result attestors no_entry attested none_found =
        no_match req evidence result attestors asked attested
          (λ e h. absurd (other (sym none_found ∙ h)))
      where
        other : {P : Type 0} {e : RegistrationEntry} → ◌≡◌ {A = Matched} no_entry (found e) → P
        other h = absurd (cc)
    with_entry-Outcome result attestors (found e) attested matched =
        respond-Outcome result attestors e _ attested matched refl

    with_attestation-Outcome :
        (answer : Result AttestError AttestationResult × List Attestor)
        → Registry.attest out.world s.attestors req.evidence_type evidence ≡ answer
        → Outcome c enc store out s body (with_attestation c enc store s out.draws req answer)
    with_attestation-Outcome (err x, attestors) h = unattested req evidence x attestors asked h
    with_attestation-Outcome (ok result, attestors) h =
        with_entry-Outcome result attestors (store.match_ req.evidence_type result.claims) h refl

  with_evidence-Outcome :
      (req : AttestRequest) (o : Option String)
      → enc.json_attest_request body ≡ some req
      → IsComplete req
      → enc.base64_decode req.evidence ≡ o
      → Outcome c enc store out s body (with_evidence c enc store out s req o)
  with_evidence-Outcome req none parsed complete h = bad_request _ (no_evidence req parsed h)
  with_evidence-Outcome req (some evidence) parsed complete h =
      with_attestation-Outcome req evidence
        (record { parsed = parsed; complete = complete; decoded = h })
        (Registry.attest out.world s.attestors req.evidence_type evidence) refl

  with_fields-Outcome :
      (req : AttestRequest) (o : Option String)
      → enc.json_attest_request body ≡ some req
      → refusal req ≡ o
      → Outcome c enc store out s body (with_fields c enc store out s req o)
  with_fields-Outcome req (some message) parsed h =
      bad_request _ (incomplete req parsed (IsComplete-refusal req h))
  with_fields-Outcome req none parsed h =
      with_evidence-Outcome req (enc.base64_decode req.evidence) parsed (refusal-IsComplete req h)
        refl

  with_request-Outcome :
      (o : Option AttestRequest)
      → enc.json_attest_request body ≡ o
      → Outcome c enc store out s body (with_request c enc store out s o)
  with_request-Outcome none h = bad_request _ (no_request h)
  with_request-Outcome (some req) h = with_fields-Outcome req (refusal req) h refl

  -- `handleAttest` always answers, in one of five ways. Status 400, with the server as it was, to a
  -- body that is no complete request with base64 evidence; for a complete one 401 with one counted
  -- error where the registry refuses the evidence; 403 with one observed duration where it attests
  -- the evidence and the store has no match for the claims; 500 with a duration where there is a
  -- match and the authority does not sign; and 200 with the SVID that it has signed, a duration,
  -- one counted success and one counted issue. The authority is never changed. (`ReadsBack` says
  -- that certificates keep their fields.)
  pub handle_attest-Outcome : Outcome c enc store out s body (handle_attest c enc store out s body)
  unfolding handle_attest
  handle_attest-Outcome = with_request-Outcome (enc.json_attest_request body) refl
