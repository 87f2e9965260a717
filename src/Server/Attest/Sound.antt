-- ===== src/Server/Attest/Sound.antt =====
-- The SVID that the switch of `handleAttest` (attest.go) puts into its response.
use svidmint.Base.{
  ◌≡◌, ◌≢◌, inl, inr, refl, sym, ap, ◌∙◌, ◌==◌, eq_iff, none, Result, ok, err, arith, Bool-cases,
}
use svidmint.Ca.{Crypto, ReadsBack, X509Svid, JwtSvid}
use svidmint.Ca.SelfSigned.{CaError, SelfSignedCa, sign_x509_svid, sign_jwt_svid}
use svidmint.Ca.SelfSigned.Signing.{
  IsX509Issue, IsJwtIssue, sign_x509_svid-IsX509Issue, sign_jwt_svid-IsJwtIssue,
}
use svidmint.Entry.{RegistrationEntry}
use svidmint.Attestor.{AttestRequest}
use svidmint.Server.Types.{AttestResponse, Server, Codec}
use svidmint.Server.Attest.{Outside, entry_ttl, issue, x509_response, jwt_response}

-- The server's own service: the SVID of the response is one that the authority signed.
pub data IsIssued (c : Crypto) (enc : Codec) (ca : SelfSignedCa) (out : Outside)
    (req : AttestRequest) (e : RegistrationEntry) (resp : AttestResponse) : Type 0 where
  x509_issued :
      (svid : X509Svid)
      → req.svid_type ≡ "x509"
      → IsX509Issue c ca e.spiffe_id none (entry_ttl e.ttl) out.draws.now svid
      → ok resp ≡ x509_response c enc req e (ok svid)
      → IsIssued c enc ca out req e resp
  jwt_issued :
      (svid : JwtSvid)
      → req.svid_type ≢ "x509"
      → IsJwtIssue c ca e.spiffe_id req.audience (entry_ttl e.ttl) out.draws svid
      → ok resp ≡ jwt_response c enc req e (ok svid)
      → IsIssued c enc ca out req e resp

module _ (c : Crypto) (enc : Codec) (out : Outside) (s : Server) (resp : AttestResponse) where
  x509_sound :
      (req : AttestRequest) (e : RegistrationEntry) (r : Result CaError X509Svid)
      → x509_response c enc req e r ≡ ok resp
      → (svid : X509Svid) × (r ≡ ok svid)
  x509_sound req e (ok svid) h = (svid, refl)
  x509_sound req e (err x) h = absurd (cc)

  jwt_sound :
      (req : AttestRequest) (e : RegistrationEntry) (r : Result CaError JwtSvid)
      → jwt_response c enc req e r ≡ ok resp
      → (svid : JwtSvid) × (r ≡ ok svid)
  jwt_sound req e (ok svid) h = (svid, refl)
  jwt_sound req e (err x) h = absurd (cc)

  pub issue-IsIssued :
      (req : AttestRequest) (e : RegistrationEntry)
      → ReadsBack c
      → issue c enc s out.draws req e ≡ ok resp
      → IsIssued c enc s.ca out req e resp
  unfolding issue
  issue-IsIssued req e laws h = elim (Bool-cases (req.svid_type == "x509")) [
    | inl is_x509 ↦
        let signing = sign_x509_svid c s.ca e.spiffe_id none (entry_ttl e.ttl) out.draws in
        let taken : x509_response c enc req e signing ≡ ok resp = rw (is_x509, issue) at h in
        let (svid, signed) = x509_sound req e signing taken in
        x509_issued svid ((eq_iff _ _).0 is_x509)
          (sign_x509_svid-IsX509Issue c s.ca laws e.spiffe_id none (entry_ttl e.ttl) out.draws svid
            signed)
          (sym taken ∙ ap (x509_response c enc req e) signed)
    | inr other ↦
        let signing = sign_jwt_svid c s.ca e.spiffe_id req.audience (entry_ttl e.ttl) out.draws in
        let taken : jwt_response c enc req e signing ≡ ok resp = rw (other, issue) at h in
        let (svid, signed) = jwt_sound req e signing taken in
        jwt_issued svid (λ same. ground (arith, eq_iff req.svid_type "x509"))
          (sign_jwt_svid-IsJwtIssue c s.ca e.spiffe_id req.audience (entry_ttl e.ttl) out.draws svid
            signed)
          (sym taken ∙ ap (jwt_response c enc req e) signed)
  ]
