-- ===== src/Server/Validate.antt =====
-- internal/server/validate.go
pub mod Sound
pub mod Issued
use svidmint.Base.{
  ℕ, zero, suc, String, ◌==◌, Bool, true, false, Option, none, some, List, [], ◌∷◌, Result, ok, err,
  length, if◌then◌else◌,
}
use svidmint.Base.Int.{ℤ, pos}
use svidmint.Base.Text.{codes}
use svidmint.Ca.{Crypto, Certificate, Der}
use svidmint.Ca.SelfSigned.{CaError, SelfSignedCa, validate_x509_svid, validate_jwt_svid}
use svidmint.Server.Types.{
  ValidateRequest, ValidateResponse, Message, text, of_ca, validate_body, Response,
  svid_validated_total, Server, Codec, write_error, write_json, inc,
}

-- The certificates of a text, or a block that is no certificate.
pub data CertRead : Type 0 where
  read : List Certificate → CertRead
  bad_certificate out_of_fuel : CertRead

abbrev pub read_first : Option Certificate → CertRead → CertRead
read_first none rest = bad_certificate
read_first (some cert) (read certs) = read (cert ∷ certs)
read_first (some cert) bad_certificate = bad_certificate
read_first (some cert) out_of_fuel = out_of_fuel

abbrev pub refused : Message → Response
refused message =
    write_json 200 (
      validate_body (record { valid = false; spiffe_id = ""; expires_at = pos 0; error = message }))

abbrev pub not_after : Codec → List Certificate → ℤ
not_after enc [] = pos 0
not_after enc (cert ∷ _) = enc.unix cert.template.not_after

module _ (c : Crypto) (enc : Codec) where
  -- the loop over the blocks, on fuel: a round takes a block off the text
  unfoldable pub read_certs : ℕ → String → CertRead
  read_certs zero pem_data = out_of_fuel
  read_certs (suc fuel) pem_data = elim (enc.pem_decode pem_data) [
    | none ↦ read []
    | some (der, rest) ↦ read_first (c.parse_certificate der) (read_certs fuel rest)
  ]

  abbrev pub conclude_x509 : Server → List Certificate → Result CaError String → Response × Server
  conclude_x509 s certs (err x) = (refused (of_ca x), inc (svid_validated_total "x509" "false") s)
  conclude_x509 s certs (ok spiffe_id) = (
    write_json 200 (
        validate_body (record {
          valid = true;
          spiffe_id = spiffe_id;
          expires_at = not_after enc certs;
          error = text "";
        })),
    inc (svid_validated_total "x509" "true") s,
  )

  abbrev pub with_certs : Server → CertRead → Response × Server
  with_certs s out_of_fuel = (refused (text ""), s)
  with_certs s bad_certificate = (refused (text "invalid certificate PEM"), s)
  with_certs s (read []) = (
    refused (text "no certificates found in PEM data"),
    inc (svid_validated_total "x509" "false") s,
  )
  with_certs s (read (cert ∷ certs)) =
      conclude_x509 s (cert ∷ certs) (validate_x509_svid c s.ca (cert ∷ certs))

  -- `validateX509`; `Sound.read_certs-enough` shows that the fuel is enough.
  unfoldable pub validate_x509 : Server → String → Response × Server
  unfolding read_certs
  validate_x509 s pem_data = with_certs s (read_certs (suc (length (codes pem_data))) pem_data)

  abbrev pub conclude_jwt : Server → Result CaError String → Response × Server
  conclude_jwt s (err x) = (refused (of_ca x), inc (svid_validated_total "jwt" "false") s)
  conclude_jwt s (ok spiffe_id) = (
    write_json 200 (
        validate_body
          (record { valid = true; spiffe_id = spiffe_id; expires_at = pos 0; error = text "" })),
    inc (svid_validated_total "jwt" "true") s,
  )

  -- `validateJWT`
  unfoldable pub validate_jwt : Server → String → Response × Server
  validate_jwt s token = conclude_jwt s (validate_jwt_svid c s.ca token "")

  abbrev pub with_request : Server → Option ValidateRequest → Response × Server
  with_request s none = (write_error 400 "invalid_request" (text "malformed JSON body"), s)
  with_request s (some req) =
      if req.svid_type == "x509"
      then validate_x509 s req.svid
      else if req.svid_type == "jwt"
      then validate_jwt s req.svid
      else (write_error 400 "invalid_request" (text "svid_type must be x509 or jwt"), s)

  -- `handleValidate`
  unfoldable pub handle_validate : Server → String → Response × Server
  unfolding validate_x509 validate_jwt
  handle_validate s body = with_request s (enc.json_validate_request body)
