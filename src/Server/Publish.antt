-- ===== src/Server/Publish.antt =====
-- internal/server/bundle.go, jwks.go and health.go
pub mod Keys
use svidmint.Base.{
  ℕ, String, ◌==◌, Bool, true, Option, none, some, List, [], ◌∷◌, map, Result, ok, err,
  if◌then◌else◌,
}
use svidmint.Base.Assoc.{lookup, insert}
use svidmint.Ca.{Crypto, Certificate, PublicKey, TrustBundle, JwtAuthority}
use svidmint.Ca.SelfSigned.{CaError, get_bundle, jwks}
use svidmint.Server.Types.{
  Message, text, of_ca, BundleResponse, X509AuthorityResp, JwtAuthorityResp, bundle_body,
  health_body, raw, Response, Server, Codec, KeyParts, ec, rsa, other_key, write_error, write_json,
}

abbrev pub key_fields : Codec → KeyParts → List (String × String)
key_fields enc (ec curve x y) =
    ("kty", "EC") ∷ ("crv", curve) ∷ ("x", enc.base64_raw_url x) ∷ ("y", enc.base64_raw_url y) ∷ []
key_fields enc (rsa n e) =
    ("kty", "RSA") ∷ ("n", enc.base64_raw_url n) ∷ ("e", enc.base64_raw_url e) ∷ []
key_fields enc other_key = []

-- `elliptic.P256().Params().Name` is "P-256".
abbrev pub normalize_curve : List (String × String) → Option String → List (String × String)
normalize_curve result none = result
normalize_curve result (some curve) =
    if curve == "P-256" then insert "crv" "P-256" result else result

-- `encodePublicKey`
unfoldable pub encode_public_key : Codec → PublicKey → List (String × String)
encode_public_key enc key =
    let result = key_fields enc (enc.key_parts key) in normalize_curve result (lookup "crv" result)

abbrev pub bundle_response : Codec → TrustBundle → BundleResponse
bundle_response enc bundle = record {
  trust_domain = bundle.trust_domain;
  x509_authorities =
      map (λ (cert : Certificate). record { asn1 = enc.base64_encode cert.raw })
        bundle.x509_authorities;
  jwt_authorities =
      map
        (λ (auth : JwtAuthority). record {
          key_id = auth.key_id;
          public_key = encode_public_key enc auth.public_key;
        })
        bundle.jwt_authorities;
  refresh_hint = 300;
  sequence_number = bundle.sequence_number;
}

abbrev pub with_bundle : Codec → Result CaError TrustBundle → Response
with_bundle enc (err x) = write_error 500 "bundle_error" (of_ca x)
with_bundle enc (ok bundle) = write_json 200 (bundle_body (bundle_response enc bundle))

-- `handleBundle`
unfoldable pub handle_bundle : Crypto → Codec → Server → Response
unfolding encode_public_key
handle_bundle c enc s = with_bundle enc (get_bundle c s.ca)

abbrev pub with_jwks : Option String → Response
with_jwks none = write_error 500 "jwks_error" (text "")
with_jwks (some body) = record { status = 200; body = raw body }

-- `handleJWKS`; the text of a marshalling error is not modelled.
unfoldable pub handle_jwks : Crypto → Codec → Server → Response
handle_jwks c enc s = with_jwks (jwks c enc.marshal_jwks s.ca)

-- `handleHealth`: a server that `New` has built has an authority and a store.
unfoldable pub handle_health : Server → Response
handle_health s = write_json 200 (health_body "healthy" true true)
