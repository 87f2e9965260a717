-- ===== src/Ca/SelfSigned/Defs.antt =====
-- internal/ca/self_signed.go: the state of a `SelfSignedCA`, signing, bundles and validation.
use svidmint.Base.{
  ℕ, String, false, not, Option, none, some, List, [], ◌∷◌, Result, ok, ◌>>=◌, ◌>>◌, guard, or_err,
  ◌==◌, is_empty,
}
use svidmint.Base.Int.{ℤ, pos, ◌+ℤ◌}
use svidmint.Ca.Types.{
  Time, Duration, PrivateKey, PublicKey, Template, Certificate, X509Svid, JwtSvid, JwtAuthority,
  TrustBundle, SpiffeId, Crypto, server_auth, client_auth, digital_signature, key_encipherment,
  truncate_seconds,
}
use svidmint.Ca.Ttl.{compute_ttl, seconds}

pub data CaError : Type 0 where
  parsing_default_ttl parsing_max_ttl parsing_signing_ttl : CaError
  reading_file no_pem_block parsing_private_key key_not_ecdsa : CaError
  marshaling_private_key writing_file marshaling_public_key : CaError
  generating_key generating_serial creating_certificate parsing_certificate : CaError
  invalid_spiffe_id trust_domain_mismatch root_path parsing_uri : CaError
  empty_audience creating_signer signing_jwt : CaError
  parsing_trust_domain verifying_x509 validating_jwt : CaError
  loading_root_key loading_root_cert saving_root_key saving_root_cert : CaError → CaError

pub record SelfSignedCa : Type 0 where
  pub root_key : PrivateKey
  pub root_cert : Certificate
  pub intermediate_key : PrivateKey
  pub intermediate_cert : Certificate
  pub jwt_signing_key : PrivateKey
  pub jwt_key_id : String
  pub trust_domain : String
  pub default_ttl : Duration
  pub max_ttl : Duration

-- `jose.JSONWebKey`
pub record Jwk : Type 0 where
  pub key_id : String
  pub key : PublicKey
  pub algorithm : String
  pub key_use : String

-- What one signing call reads from outside: a fresh key, a serial, the clock, a UUID. `none` is an
-- error of the call that reads it.
pub record Draws : Type 0 where
  pub key : Option PrivateKey
  pub serial : Option ℕ
  pub now : Time
  pub uuid : String

-- `x509.CertificateRequest`
pub record CertificateRequest : Type 0 where
  pub public_key : PublicKey

-- A public key and, where it was generated here, its private key.
abbrev pub KeyPair : Type 0
KeyPair = PublicKey × Option PrivateKey

module _ (c : Crypto) where
  -- the checks of the SPIFFE ID, which both signing methods begin with
  unfoldable pub check_id : SelfSignedCa → String → Result CaError SpiffeId
  check_id ca spiffe_id = do
    id ← or_err (c.from_string spiffe_id) invalid_spiffe_id
    guard (id.trust_domain == ca.trust_domain) trust_domain_mismatch
    guard (not (id.path == "")) root_path
    ok id

  unfoldable pub workload_key : Option CertificateRequest → Draws → Result CaError KeyPair
  workload_key (some csr) draws = ok (csr.public_key, none)
  workload_key none draws = do key ← or_err draws.key generating_key; ok (c.public_of key, some key)

  unfoldable pub leaf_template : ℕ → String → Time → ℤ → Template
  unfolding seconds ◌+ℤ◌
  leaf_template serial uri now effective_ttl = record {
    serial_number = serial;
    common_name = "";
    organization = [];
    uris = uri ∷ [];
    not_before = now;
    not_after = now +ℤ seconds effective_ttl;
    key_usage = digital_signature ∷ key_encipherment ∷ [];
    ext_key_usage = server_auth ∷ client_auth ∷ [];
    is_ca = false;
    max_path_len = none;
  }

  -- `SignX509SVID`
  unfoldable pub sign_x509_svid :
      SelfSignedCa → String → Option CertificateRequest → ℤ → Draws → Result CaError X509Svid
  unfolding check_id workload_key
  sign_x509_svid ca spiffe_id csr ttl draws = do
    _ ← check_id ca spiffe_id
    keys ← workload_key csr draws
    let effective_ttl = compute_ttl ca.default_ttl ca.max_ttl draws.now ttl (pos 0) none
    serial ← or_err draws.serial generating_serial
    uri ← or_err (c.url_parse spiffe_id) parsing_uri
    let template = leaf_template serial uri draws.now effective_ttl
    der ←
        or_err (c.create_certificate template ca.intermediate_cert keys.0 ca.intermediate_key)
          creating_certificate
    leaf ← or_err (c.parse_certificate der) parsing_certificate
    ok (record {
      spiffe_id = spiffe_id;
      cert_chain = leaf ∷ ca.intermediate_cert ∷ [];
      private_key = keys.1;
      expires_at = template.not_after;
    })

  -- `SignJWTSVID`; `josejwt.NewNumericDate` keeps whole seconds.
  unfoldable pub sign_jwt_svid :
      SelfSignedCa → String → List String → ℤ → Draws → Result CaError JwtSvid
  unfolding check_id
  sign_jwt_svid ca spiffe_id audience ttl draws = do
    _ ← check_id ca spiffe_id
    guard (not (is_empty audience)) empty_audience
    let effective_ttl = compute_ttl ca.default_ttl ca.max_ttl draws.now ttl (pos 0) none
    guard (c.can_sign ca.jwt_signing_key) creating_signer
    let expires_at = draws.now +ℤ seconds effective_ttl
    token ←
        or_err
          (c.sign_jwt ca.jwt_signing_key ca.jwt_key_id (record {
            sub = spiffe_id;
            aud = audience;
            exp = truncate_seconds expires_at;
            iat = truncate_seconds draws.now;
            jti = draws.uuid;
          }))
          signing_jwt
    ok (record { spiffe_id = spiffe_id; token = token; expires_at = expires_at })

  -- the authority that tokens are validated against, and that the bundle publishes
  abbrev pub jwt_authority : SelfSignedCa → JwtAuthority
  jwt_authority ca = record { key_id = ca.jwt_key_id; public_key = c.public_of ca.jwt_signing_key }

  -- `GetBundle`
  unfoldable pub get_bundle : SelfSignedCa → Result CaError TrustBundle
  get_bundle ca = ok (record {
    trust_domain = ca.trust_domain;
    x509_authorities = ca.root_cert ∷ [];
    jwt_authorities = jwt_authority ca ∷ [];
    sequence_number = 1;
  })

  -- `JWKS`, with `json.Marshal` of the key set as a parameter
  unfoldable pub jwks : (List Jwk → Option String) → SelfSignedCa → Option String
  jwks marshal ca = marshal (
      record {
        key_id = ca.jwt_key_id;
        key = c.public_of ca.jwt_signing_key;
        algorithm = "ES256";
        key_use = "sig";
      }
      ∷ [])

  -- `ValidateX509SVID`
  unfoldable pub validate_x509_svid : SelfSignedCa → List Certificate → Result CaError String
  validate_x509_svid ca certs = do
    td ← or_err (c.trust_domain_from_string ca.trust_domain) parsing_trust_domain
    id ← or_err (c.verify_x509 certs td (ca.root_cert ∷ [])) verifying_x509
    ok id.text

  -- `ValidateJWTSVID`
  unfoldable pub validate_jwt_svid : SelfSignedCa → String → String → Result CaError String
  validate_jwt_svid ca token expected_audience = do
    td ← or_err (c.trust_domain_from_string ca.trust_domain) parsing_trust_domain
    id ←
        or_err (c.verify_jwt token td (jwt_authority ca ∷ []) (expected_audience ∷ []))
          validating_jwt
    ok id.text
