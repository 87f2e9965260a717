-- ===== src/Ca/Types.antt =====
-- internal/ca/types.go, the fields of `crypto/x509` certificates that self_signed.go sets, and what
-- the authority takes from other packages: cryptography, DER, JOSE and SPIFFE IDs.
use svidmint.Base.{ℕ, String, Bool, Option, some, List, ◌≡◌}
use svidmint.Base.Int.{ℤ, quot, scale}

-- Nanoseconds: of a `time.Time` since the epoch, and of a `time.Duration`.
abbrev pub Time : Type 0
Time = ℤ

abbrev pub Duration : Type 0
Duration = ℤ

abbrev pub second : ℕ
second = 1_000_000_000

-- `t.Unix()` in nanoseconds: DER and JWT dates keep whole seconds.
unfoldable pub truncate_seconds : Time → Time
truncate_seconds t = scale second (quot t second)

-- Key material and DER, which only other packages look into.
abbrev pub PrivateKey : Type 0
PrivateKey = String

abbrev pub PublicKey : Type 0
PublicKey = String

abbrev pub Der : Type 0
Der = String

pub data KeyUsage : Type 0 where
  cert_sign crl_sign digital_signature key_encipherment : KeyUsage

pub data ExtKeyUsage : Type 0 where
  server_auth client_auth : ExtKeyUsage

pub record Template : Type 0 where
  pub serial_number : ℕ
  pub common_name : String
  pub organization : List String
  pub uris : List String
  pub not_before : Time
  pub not_after : Time
  pub key_usage : List KeyUsage
  pub ext_key_usage : List ExtKeyUsage
  pub is_ca : Bool
  pub max_path_len : Option ℕ

-- `x509.Certificate` as `x509.ParseCertificate` returns it.
pub record Certificate : Type 0 where
  pub template : Template
  pub public_key : PublicKey
  pub raw : Der

pub record X509Svid : Type 0 where
  pub spiffe_id : String
  pub cert_chain : List Certificate
  pub private_key : Option PrivateKey
  pub expires_at : Time

pub record JwtSvid : Type 0 where
  pub spiffe_id : String
  pub token : String
  pub expires_at : Time

pub record JwtAuthority : Type 0 where
  pub key_id : String
  pub public_key : PublicKey

pub record TrustBundle : Type 0 where
  pub trust_domain : String
  pub x509_authorities : List Certificate
  pub jwt_authorities : List JwtAuthority
  pub sequence_number : ℕ

-- The claims map of `SignJWTSVID`; it has no `iss`.
pub record JwtClaims : Type 0 where
  pub sub : String
  pub aud : List String
  pub exp : Time
  pub iat : Time
  pub jti : String

-- `spiffeid.ID` of go-spiffe: its text, its trust domain and its path.
pub record SpiffeId : Type 0 where
  pub text : String
  pub trust_domain : String
  pub path : String

-- Packages that the authority calls: crypto/x509, go-jose, go-spiffe and net/url.
pub record Crypto : Type 0 where
  pub public_of : PrivateKey → PublicKey
  pub create_certificate : Template → Certificate → PublicKey → PrivateKey → Option Der
  pub parse_certificate : Der → Option Certificate
  pub can_sign : PrivateKey → Bool
  pub sign_jwt : PrivateKey → String → JwtClaims → Option String
  pub from_string : String → Option SpiffeId
  pub url_parse : String → Option String
  pub trust_domain_from_string : String → Option String
  pub verify_x509 : List Certificate → String → List Certificate → Option SpiffeId
  pub verify_jwt : String → String → List JwtAuthority → List String → Option SpiffeId

-- What a certificate that was created from a template says when it is read back: the template's
-- fields, with dates in whole seconds, and the public key that it was created for.
pub record ReadsBack (c : Crypto) : Type 0 where
  pub read_back :
      (t : Template) (parent : Certificate) (pub_key : PublicKey) (key : PrivateKey) (der : Der)
      (cert : Certificate)
      → c.create_certificate t parent pub_key key ≡ some der
      → c.parse_certificate der ≡ some cert
      → cert ≡ record {
        template = record t {
          not_before = truncate_seconds t.not_before;
          not_after = truncate_seconds t.not_after;
        };
        public_key = pub_key;
        raw = der;
      }
  pub uri_text :
      (s u : String) (id : SpiffeId) → c.from_string s ≡ some id → c.url_parse s ≡ some u → u ≡ s
