-- ===== src/Server/Routes/Kept.antt =====
-- What requests to the server (internal/server) leave as it was.
use mathlib.Core.Path.{subst}
use svidmint.Base.{
  String, ◌≡◌, refl, ap, Option, none, some, List, [], ◌∷◌, ◌++◌, map, inl, inr, Result, ok, err,
  Bool-cases, arith, Option-cases, ◌==◌,
}
use svidmint.Base.Assoc.{lookup}
use svidmint.Ca.{Crypto, Certificate}
use svidmint.Ca.SelfSigned.{CaError}
use svidmint.Attestor.{AttestRequest, AttestationResult, AttestError}
use svidmint.Attestor.Registry
use svidmint.Attestor.Registry.{Attestor, name, attest_one, can_attest, put_first, put_before}
use svidmint.Attestor.Registry.Settings.{without_cache, attest-without_cache}
use svidmint.Server.Types.{
  AttestResponse, ValidateRequest, Metric, Response, Server, Matched, found, match_error, no_entry,
  EntryStore, Codec,
}
use svidmint.Server.Attest.{
  Outside, refusal, issue, respond, timed, with_entry, with_attestation, with_evidence, with_fields,
  with_request, handle_attest,
}
use svidmint.Server.Validate
use svidmint.Server.Validate.{
  CertRead, read, bad_certificate, out_of_fuel, read_certs, with_certs, conclude_x509, conclude_jwt,
  validate_x509, validate_jwt, handle_validate,
}
use svidmint.Server.Routes.{
  Handler, Choice, own, pattern, Mux, HttpCall, LogLine, routes, handle, chosen, logged,
}

-- The authority is the one from before, so are the attestors but for their caches of keys, and
-- counts were only added.
pub record IsKept (s s' : Server) : Type 0 where
  pub ca : s'.ca ≡ s.ca
  pub attestors : map without_cache s'.attestors ≡ map without_cache s.attestors
  pub added : List Metric
  pub metrics : s'.metrics ≡ added ++ s.metrics

pub refl-IsKept : (s : Server) → IsKept s s
refl-IsKept s = record { ca = refl; attestors = refl; added = []; metrics = refl }

module _ (c : Crypto) (enc : Codec) (store : EntryStore) (out : Outside) (s : Server) where
  respond-IsKept :
      (s' : Server) (req : AttestRequest) (r : Result CaError AttestResponse)
      → IsKept s s'
      → IsKept s (respond c enc s' req r).1
  respond-IsKept s' req (err x) k = k
  respond-IsKept s' req (ok resp) k = record {
    ca = k.ca;
    attestors = k.attestors;
    added =
        Metric.svid_issued_total req.svid_type req.evidence_type
        ∷ Metric.attestation_total req.evidence_type "success"
        ∷ k.added;
    metrics =
        ap
          (λ ms.
            Metric.svid_issued_total req.svid_type req.evidence_type
            ∷ Metric.attestation_total req.evidence_type "success"
            ∷ ms)
          k.metrics;
  }

  with_entry-IsKept :
      (s' : Server) (req : AttestRequest) (m : Matched)
      → IsKept s s'
      → IsKept s (with_entry c enc s' out.draws req m).1
  with_entry-IsKept s' req match_error k = k
  with_entry-IsKept s' req no_entry k = k
  with_entry-IsKept s' req (found e) k = respond-IsKept s' req (issue c enc s' out.draws req e) k

  with_attestation-IsKept :
      (req : AttestRequest) (answer : Result AttestError AttestationResult × List Attestor)
      → map without_cache answer.1 ≡ map without_cache s.attestors
      → IsKept s (with_attestation c enc store s out.draws req answer).1
  with_attestation-IsKept req (err x, attestors) same = record {
    ca = refl;
    attestors = same;
    added = Metric.attestation_total "unknown" "error" ∷ [];
    metrics = refl;
  }
  with_attestation-IsKept req (ok result, attestors) same =
      with_entry-IsKept (timed s req attestors) req (store.match_ req.evidence_type result.claims)
        (record {
          ca = refl;
          attestors = same;
          added = Metric.attestation_duration req.evidence_type ∷ [];
          metrics = refl;
        })

  with_evidence-IsKept :
      (req : AttestRequest) (o : Option String) → IsKept s (with_evidence c enc store out s req o).1
  with_evidence-IsKept req none = refl-IsKept s
  with_evidence-IsKept req (some evidence) =
      with_attestation-IsKept req (Registry.attest out.world s.attestors req.evidence_type evidence)
        (attest-without_cache out.world s.attestors req.evidence_type evidence)

  with_fields-IsKept :
      (req : AttestRequest) (o : Option String) → IsKept s (with_fields c enc store out s req o).1
  with_fields-IsKept req (some message) = refl-IsKept s
  with_fields-IsKept req none = with_evidence-IsKept req (enc.base64_decode req.evidence)

  attest_request-IsKept : (o : Option AttestRequest) → IsKept s (with_request c enc store out s o).1
  attest_request-IsKept none = refl-IsKept s
  attest_request-IsKept (some req) = with_fields-IsKept req (refusal req)

  count-IsKept :
      (t v : String) → IsKept s (record s { metrics = Metric.svid_validated_total t v ∷ s.metrics })
  count-IsKept t v = record {
    ca = refl;
    attestors = refl;
    added = Metric.svid_validated_total t v ∷ [];
    metrics = refl;
  }

  conclude_x509-IsKept :
      (certs : List Certificate) (r : Result CaError String)
      → IsKept s (conclude_x509 c enc s certs r).1
  conclude_x509-IsKept certs (err x) = count-IsKept "x509" "false"
  conclude_x509-IsKept certs (ok id) = count-IsKept "x509" "true"

  with_certs-IsKept : (r : CertRead) → IsKept s (with_certs c enc s r).1
  with_certs-IsKept out_of_fuel = refl-IsKept s
  with_certs-IsKept bad_certificate = refl-IsKept s
  with_certs-IsKept (read []) = count-IsKept "x509" "false"
  with_certs-IsKept (read (cert ∷ certs)) = conclude_x509-IsKept (cert ∷ certs) _

  conclude_jwt-IsKept : (r : Result CaError String) → IsKept s (conclude_jwt c enc s r).1
  conclude_jwt-IsKept (err x) = count-IsKept "jwt" "false"
  conclude_jwt-IsKept (ok id) = count-IsKept "jwt" "true"

  validate_request-IsKept :
      (o : Option ValidateRequest) → IsKept s (Validate.with_request c enc s o).1
  unfolding validate_x509 validate_jwt
  validate_request-IsKept none = refl-IsKept s
  validate_request-IsKept (some req) = elim (Bool-cases (req.svid_type == "x509")) [
    | inl e ↦ rw e (with_certs-IsKept _)
    | inr e ↦ elim (Bool-cases (req.svid_type == "jwt")) [
      | inl e' ↦ rw (e, e') (conclude_jwt-IsKept _)
      | inr e' ↦ rw (e, e') (refl-IsKept s)
    ]
  ]

  handle-IsKept :
      (mux : Mux) (h : Handler) (body : String) → IsKept s (handle c enc mux store h out s body).1
  unfolding handle handle_attest handle_validate
  handle-IsKept mux Handler.health body = refl-IsKept s
  handle-IsKept mux Handler.bundle body = refl-IsKept s
  handle-IsKept mux Handler.jwks body = refl-IsKept s
  handle-IsKept mux Handler.validate body = validate_request-IsKept (enc.json_validate_request body)
  handle-IsKept mux Handler.attest body = attest_request-IsKept (enc.json_attest_request body)

  logged_handler :
      (mux : Mux) (call : HttpCall) (h : Handler) (s' : Server) (line : LogLine) (resp : Response)
      → logged c enc mux store call (some (handle c enc mux store h out s call.body))
        ≡ some (line, resp, s')
      → IsKept s s'
  logged_handler mux call h s' line resp e =
      let same : (handle c enc mux store h out s call.body).1 ≡ s' = ground arith in
      subst (IsKept s) same (handle-IsKept mux h call.body)

  pub chosen-IsKept :
      (mux : Mux) (call : HttpCall) (choice : Choice) (s' : Server) (line : LogLine)
      (resp : Response)
      → logged c enc mux store call (chosen c enc mux store choice out s call.body)
        ≡ some (line, resp, s')
      → IsKept s s'
  chosen-IsKept mux call (own answer) s' line resp e =
      let same : s ≡ s' = ground arith in subst (IsKept s) same (refl-IsKept s)
  chosen-IsKept mux call (pattern p) s' line resp e = elim (Option-cases (lookup p routes)) [
    | inl missing ↦ absurd (no_answer (rw missing at e))
    | inr (h, there) ↦ logged_handler mux call h s' line resp (rw there at e)
  ]
    where
      no_answer :
          {P : Type 0}
          → ◌≡◌ {A = Option (LogLine × Response × Server)} none (some (line, resp, s'))
          → P
      no_answer h = absurd (cc)
