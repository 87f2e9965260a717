-- ===== src/Server/Validate/Sound.antt =====
-- What `handleValidate` (validate.go) has checked when it answers that an SVID is valid.
use svidmint.Base.{
  ℕ, zero, suc, ◌<◌, String, ◌≡◌, ◌≢◌, inl, inr, refl, ◌==◌, eq_iff, true, Option, none, some, List,
  [], ◌∷◌, Result, ok, err, length, arith, Bool-cases, Option-cases,
}
use svidmint.Base.Text.{codes}
use svidmint.Ca.{Crypto, Certificate, Der}
use svidmint.Ca.SelfSigned.{CaError, validate_x509_svid, validate_jwt_svid}
use svidmint.Server.Types.{
  ValidateRequest, ValidateResponse, validate_body, Response, Server, Codec, write_json,
  write_error,
}
use svidmint.Server.Validate.{
  CertRead, read, bad_certificate, out_of_fuel, read_first, read_certs, with_certs, conclude_x509,
  conclude_jwt, validate_x509, validate_jwt, with_request, handle_validate,
}

-- What encoding/pem leaves after a block is shorter than what it was given.
pub record Shortens (enc : Codec) : Type 0 where
  pub shorter :
      (pem_data : String) (der : Der) (rest : String)
      → enc.pem_decode pem_data ≡ some (der, rest)
      → length (codes rest) < length (codes pem_data)

read_first-enough :
    (o : Option Certificate) (r : CertRead) → r ≢ out_of_fuel → read_first o r ≢ out_of_fuel
read_first-enough none r n h = absurd (cc)
read_first-enough (some cert) (read certs) n h = absurd (cc)
read_first-enough (some cert) bad_certificate n h = absurd (cc)
read_first-enough (some cert) out_of_fuel n h = n refl

-- The loop over the PEM blocks ends: with more fuel than the text has characters it never runs out.
pub read_certs-enough :
    (c : Crypto) (enc : Codec) (fuel : ℕ) (pem_data : String)
    → Shortens enc
    → length (codes pem_data) < fuel
    → read_certs c enc fuel pem_data ≢ out_of_fuel
unfolding read_certs
read_certs-enough c enc zero pem_data laws more h = absurd (omega arith)
read_certs-enough c enc (suc fuel) pem_data laws more h =
    elim (Option-cases (enc.pem_decode pem_data)) [
      | inl done ↦ absurd (ground arith)
      | inr ((der, rest), e) ↦
          let less = laws.shorter pem_data der rest e in
          read_first-enough (c.parse_certificate der) (read_certs c enc fuel rest)
            (read_certs-enough c enc fuel rest laws (omega arith)) (rw (e, read_certs) at h)
    ]

-- The request names an X.509 SVID, all of whose blocks are certificates, at least one, which the
-- authority verifies as the ID; or a JWT SVID, which it verifies as the ID for the audience "".
pub data IsValid (c : Crypto) (enc : Codec) (s : Server) (spiffe_id : String)
    : ValidateRequest → Type 0 where
  x509_valid :
      (req : ValidateRequest) (certs : List Certificate)
      → req.svid_type ≡ "x509"
      → read_certs c enc (suc (length (codes req.svid))) req.svid ≡ read certs
      → validate_x509_svid c s.ca certs ≡ ok spiffe_id
      → IsValid c enc s spiffe_id req
  jwt_valid :
      (req : ValidateRequest)
      → req.svid_type ≡ "jwt"
      → validate_jwt_svid c s.ca req.svid "" ≡ ok spiffe_id
      → IsValid c enc s spiffe_id req

module _ (c : Crypto) (enc : Codec) (s s' : Server) (resp : ValidateResponse) where
  abbrev Valid : Response × Server → Type 0
  Valid answer = (answer ≡ (write_json 200 (validate_body resp), s')) × (resp.valid ≡ true)

  conclude_x509_sound :
      (certs : List Certificate) (r : Result CaError String)
      → Valid (conclude_x509 c enc s certs r)
      → r ≡ ok resp.spiffe_id
  unfolding write_json
  conclude_x509_sound certs (err x) (h, v) = absurd (ground arith)
  conclude_x509_sound certs (ok id) (h, v) = ground arith

  conclude_jwt_sound :
      (r : Result CaError String) → Valid (conclude_jwt c enc s r) → r ≡ ok resp.spiffe_id
  unfolding write_json
  conclude_jwt_sound (err x) (h, v) = absurd (ground arith)
  conclude_jwt_sound (ok id) (h, v) = ground arith

  with_certs_sound :
      (r : CertRead)
      → Valid (with_certs c enc s r)
      → (certs : List Certificate) × (r ≡ read certs)
        × (validate_x509_svid c s.ca certs ≡ ok resp.spiffe_id)
  unfolding write_json
  with_certs_sound out_of_fuel (h, v) = absurd (ground arith)
  with_certs_sound bad_certificate (h, v) = absurd (ground arith)
  with_certs_sound (read []) (h, v) = absurd (ground arith)
  with_certs_sound (read (cert ∷ certs)) h = (
    cert ∷ certs,
    refl,
    conclude_x509_sound (cert ∷ certs) (validate_x509_svid c s.ca (cert ∷ certs)) h,
  )

  request_sound :
      (req : ValidateRequest)
      → Valid (with_request c enc s (some req))
      → IsValid c enc s resp.spiffe_id req
  unfolding validate_x509 validate_jwt write_error write_json
  request_sound req (h, v) = elim (Bool-cases (req.svid_type == "x509")) [
    | inl is_x509 ↦
        let answer : validate_x509 c enc s req.svid ≡ (write_json 200 (validate_body resp), s') =
          rw (is_x509, with_request) at h in
        let (certs, all_read, verified) =
          with_certs_sound (read_certs c enc (suc (length (codes req.svid))) req.svid)
            (answer, v) in
        IsValid.x509_valid req certs ((eq_iff _ _).0 is_x509) all_read verified
    | inr not_x509 ↦ elim (Bool-cases (req.svid_type == "jwt")) [
      | inl is_jwt ↦
          let answer : validate_jwt c enc s req.svid ≡ (write_json 200 (validate_body resp), s') =
            rw (not_x509, is_jwt, with_request) at h in
          IsValid.jwt_valid req ((eq_iff _ _).0 is_jwt)
            (conclude_jwt_sound (validate_jwt_svid c s.ca req.svid "") (answer, v))
      | inr neither ↦ absurd (ground arith)
    ]
  ]

  -- An SVID is reported valid, with an ID, only if the request could be read and the authority has
  -- verified it as that ID: the X.509 chain that the PEM text holds, or the token.
  pub handle_validate-IsValid :
      (body : String)
      → handle_validate c enc s body ≡ (write_json 200 (validate_body resp), s')
      → resp.valid ≡ true
      → (req : ValidateRequest) × (enc.json_validate_request body ≡ some req)
        × IsValid c enc s resp.spiffe_id req
  unfolding handle_validate write_error write_json
  handle_validate-IsValid body h v = elim (Option-cases (enc.json_validate_request body)) [
    | inl unread ↦ absurd (ground arith)
    | inr (req, parsed) ↦ (req, parsed, request_sound req (rw (parsed, handle_validate) at h, v))
  ]
