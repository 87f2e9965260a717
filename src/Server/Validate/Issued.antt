-- ===== src/Server/Validate/Issued.antt =====
-- `handleValidate` (validate.go) on the tokens that `handleAttest` (attest.go) issues.
use mathlib.Core.List.{Mem}
use svidmint.Base.{
  String, ◌≡◌, ap, ◌∙◌, false, none, some, List, [], ◌∷◌, inl, inr, ok, or_err_ok, Bool-cases,
  arith, eq_iff,
}
use svidmint.Ca.{PrivateKey, JwtAuthority, JwtClaims, SpiffeId, Crypto, ReadsBack}
use svidmint.Ca.SelfSigned.{SelfSignedCa, validate_jwt_svid, jwt_authority}
use svidmint.Attestor.{AttestRequest}
use svidmint.Entry.{RegistrationEntry}
use svidmint.Server.Types.{
  AttestResponse, ValidateRequest, ValidateResponse, attest_body, validate_body, Server, EntryStore,
  Codec, write_json,
}
use svidmint.Server.Attest.{Outside, handle_attest}
use svidmint.Server.Attest.Sound.{IsIssued}
use svidmint.Server.Attest.Served.{handle_attest-IsServed}
use svidmint.Server.Validate.{handle_validate}
use svidmint.Server.Validate.Sound.{IsValid, handle_validate-IsValid}

-- go-spiffe accepts a token for an expected audience only if the token's claims name that audience.
pub record ChecksAudience (c : Crypto) : Type 0 where
  pub checked :
      (key : PrivateKey) (key_id token td audience : String) (claims : JwtClaims)
      (authorities : List JwtAuthority) (id : SpiffeId)
      → c.sign_jwt key key_id claims ≡ some token
      → c.verify_jwt token td authorities (audience ∷ []) ≡ some id
      → Mem audience claims.aud

module _ (c : Crypto) (enc : Codec) (laws : ReadsBack c) (audiences : ChecksAudience c) where
  validated-mem :
      (ca : SelfSignedCa) (key : PrivateKey) (key_id token audience id : String)
      (claims : JwtClaims)
      → c.sign_jwt key key_id claims ≡ some token
      → validate_jwt_svid c ca token audience ≡ ok id
      → Mem audience claims.aud
  unfolding validate_jwt_svid
  validated-mem ca key key_id token audience id claims signed h =
      or_err_ok (c.trust_domain_from_string ca.trust_domain) _ _ h λ td _ h₁.
        or_err_ok (c.verify_jwt token td (jwt_authority c ca ∷ []) (audience ∷ [])) _ _ h₁
          λ found verified _.
            audiences.checked key key_id token td audience claims _ found signed verified

  -- the token of an answer without an X.509 SVID names the audience of the request
  issued-mem :
      (ca ca' : SelfSignedCa) (out : Outside) (req : AttestRequest) (e : RegistrationEntry)
      (resp : AttestResponse) (id : String)
      → resp.svid ≡ none
      → IsIssued c enc ca out req e resp
      → validate_jwt_svid c ca' resp.token "" ≡ ok id
      → Mem "" req.audience
  issued-mem ca ca' out req e resp id is_jwt (IsIssued.x509_issued svid _ _ same) h =
      absurd (ground arith)
  issued-mem ca ca' out req e resp id is_jwt (IsIssued.jwt_issued svid _ issue same) h =
      let token : resp.token ≡ svid.token = ground arith in
      validated-mem ca' _ _ svid.token "" id _ issue.signed (rw (← token) h)

  valid_token :
      (s : Server) (id : String) (req : ValidateRequest)
      → req.svid_type ≡ "jwt"
      → IsValid c enc s id req
      → validate_jwt_svid c s.ca req.svid "" ≡ ok id
  valid_token s id _ is_jwt (IsValid.x509_valid req certs is_x509 _ _) =
      absurd (ground (arith, eq_iff "x509" "jwt"))
  valid_token s id _ is_jwt (IsValid.jwt_valid req _ verified) = verified

  -- A JWT SVID that `handleAttest` has issued, for a request that does not name the empty audience,
  -- is never reported valid by `handleValidate` of this or another server: it validates every token
  -- for the empty audience. (Of the packages: `ChecksAudience`, `ReadsBack`.)
  pub handle_validate-eq-false :
      (store : EntryStore) (out : Outside) (s s' : Server) (resp : AttestResponse) (body : String)
      (other other' : Server) (answer : ValidateResponse) (asked : String) (req : ValidateRequest)
      → handle_attest c enc store out s body ≡ (write_json 200 (attest_body resp), s')
      → resp.svid ≡ none
      → ((request : AttestRequest)
          → enc.json_attest_request body ≡ some request
          → Mem "" request.audience
          → ⊥)
      → enc.json_validate_request asked ≡ some req
      → req.svid_type ≡ "jwt"
      → req.svid ≡ resp.token
      → handle_validate c enc other asked ≡ (write_json 200 (validate_body answer), other')
      → answer.valid ≡ false
  handle_validate-eq-false store out s s' resp body other other' answer asked req attested is_jwt
        no_empty parsed jwt same h =
      elim (Bool-cases answer.valid) [
        | inr e ↦ e
        | inl valid ↦
            let served = handle_attest-IsServed c enc store out s' resp s body laws attested in
            let (req', parsed', checked) =
              handle_validate-IsValid c enc other other' answer asked h valid in
            let one : req' ≡ req = ground arith in
            let verified =
              valid_token other answer.spiffe_id req'
                (ap (λ (r : ValidateRequest). r.svid_type) one ∙ jwt) checked in
            let token : req'.svid ≡ resp.token = ap (λ (r : ValidateRequest). r.svid) one ∙ same in
            absurd (
              no_empty served.req served.parsed (
                issued-mem s.ca other.ca out served.req served.entry resp answer.spiffe_id is_jwt
                  served.issued (rw (← token) verified)))
      ]
