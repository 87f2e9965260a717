-- ===== src/Ca/SelfSigned/Roots.antt =====
-- internal/ca/self_signed.go: the templates of the root and the intermediate certificate.
use svidmint.Base.{ℕ, ◌*◌, String, true, Option, none, some, List, [], ◌∷◌, Result, ◌>>=◌, or_err}
use svidmint.Base.Int.{pos, ◌+ℤ◌}
use svidmint.Ca.Types.{
  Time, Duration, PrivateKey, Template, Certificate, Crypto, cert_sign, crl_sign, second,
}
use svidmint.Ca.SelfSigned.Defs
use svidmint.Ca.SelfSigned.Defs.{CaError}

abbrev ten_years : Duration
ten_years = pos (10 * 365 * 24 * 3600 * second)

abbrev organization : List String
organization = "svidmint" ∷ []

unfoldable pub root_template : ℕ → Time → Template
unfolding ◌+ℤ◌
root_template serial now = record {
  serial_number = serial;
  common_name = "svidmint Root CA";
  organization = organization;
  uris = [];
  not_before = now;
  not_after = now +ℤ ten_years;
  key_usage = cert_sign ∷ crl_sign ∷ [];
  ext_key_usage = [];
  is_ca = true;
  max_path_len = none;
}

unfoldable pub intermediate_template : ℕ → Time → Duration → Template
unfolding ◌+ℤ◌
intermediate_template serial now signing_ttl = record {
  serial_number = serial;
  common_name = "svidmint Intermediate CA";
  organization = organization;
  uris = [];
  not_before = now;
  not_after = now +ℤ signing_ttl;
  key_usage = cert_sign ∷ [];
  ext_key_usage = [];
  is_ca = true;
  max_path_len = some 0;
}

-- A self-signed certificate has its template as parent.
abbrev pub as_parent : Template → Certificate
as_parent t = record { template = t; public_key = ""; raw = "" }

module _ (c : Crypto) where
  -- `createRootCert`
  unfoldable pub create_root_cert : PrivateKey → Option ℕ → Time → Result CaError Certificate
  create_root_cert root_key serial_draw now = do
    serial ← or_err serial_draw Defs.generating_serial
    let t = root_template serial now
    der ←
        or_err (c.create_certificate t (as_parent t) (c.public_of root_key) root_key)
          Defs.creating_certificate
    or_err (c.parse_certificate der) Defs.parsing_certificate

  -- `createIntermediateCert`
  unfoldable pub create_intermediate_cert :
      PrivateKey
      → Certificate
      → PrivateKey
      → Option ℕ
      → Time
      → Duration
      → Result CaError Certificate
  create_intermediate_cert root_key root_cert key serial_draw now signing_ttl = do
    serial ← or_err serial_draw Defs.generating_serial
    der ←
        or_err
          (c.create_certificate (intermediate_template serial now signing_ttl) root_cert
            (c.public_of key) root_key)
          Defs.creating_certificate
    or_err (c.parse_certificate der) Defs.parsing_certificate
