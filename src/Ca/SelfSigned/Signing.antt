-- ===== src/Ca/SelfSigned/Signing.antt =====
-- What `SignX509SVID` and `SignJWTSVID` (self_signed.go) have checked when they return an SVID, and
-- what the SVID says.
use mathlib.Core.Path.{subst₂}
use svidmint.Base.{
  ◌≡◌, ◌≢◌, ap, sym, ◌∙◌, String, false, not, Option, none, some, List, [], ◌∷◌, ok, bind_ok,
  or_err_ok, guard_ok, ◌==◌, eq_iff, arith, is_empty,
}
use svidmint.Base.Int.{ℤ, pos, ◌+ℤ◌}
use svidmint.Ca.Types.{
  Time, Template, PrivateKey, PublicKey, Certificate, X509Svid, JwtSvid, SpiffeId, Crypto,
  ReadsBack, server_auth, client_auth, digital_signature, key_encipherment, truncate_seconds,
}
use svidmint.Ca.Ttl.{compute_ttl, seconds}
use svidmint.Ca.SelfSigned.Defs.{
  SelfSignedCa, Draws, CertificateRequest, KeyPair, check_id, workload_key, leaf_template,
  sign_x509_svid, sign_jwt_svid,
}

-- The text is a SPIFFE ID of the authority's trust domain, with a path.
pub record IsIssuable (c : Crypto) (ca : SelfSignedCa) (spiffe_id : String) : Type 0 where
  pub id : SpiffeId
  pub parses : c.from_string spiffe_id ≡ some id
  pub domain : id.trust_domain ≡ ca.trust_domain
  pub has_path : id.path ≢ ""

-- The certificate is for the request's key; or it is for a fresh key, which is handed over.
abbrev pub KeyFits : Crypto → Option CertificateRequest → Option PrivateKey → PublicKey → Type 0
KeyFits c (some csr) private_key pub_key = (private_key ≡ none) × (pub_key ≡ csr.public_key)
KeyFits c none private_key pub_key =
    (key : PrivateKey) × (private_key ≡ some key) × (pub_key ≡ c.public_of key)

pub record IsX509Issue (c : Crypto) (ca : SelfSignedCa) (spiffe_id : String)
    (csr : Option CertificateRequest) (ttl : ℤ) (now : Time) (svid : X509Svid) : Type 0 where
  pub issuable : IsIssuable c ca spiffe_id
  pub same_id : svid.spiffe_id ≡ spiffe_id
  pub leaf : Certificate
  pub chain : svid.cert_chain ≡ leaf ∷ ca.intermediate_cert ∷ []
  pub template : Template
  pub signed :
      c.create_certificate template ca.intermediate_cert leaf.public_key ca.intermediate_key
      ≡ some leaf.raw
  pub reads : c.parse_certificate leaf.raw ≡ some leaf
  pub uri : leaf.template.uris ≡ spiffe_id ∷ []
  pub not_ca : leaf.template.is_ca ≡ false
  pub usages : leaf.template.key_usage ≡ digital_signature ∷ key_encipherment ∷ []
  pub ext_usages : leaf.template.ext_key_usage ≡ server_auth ∷ client_auth ∷ []
  pub key : KeyFits c csr svid.private_key leaf.public_key
  pub expiry :
      svid.expires_at ≡ now +ℤ seconds (compute_ttl ca.default_ttl ca.max_ttl now ttl (pos 0) none)
  pub leaf_expiry : leaf.template.not_after ≡ truncate_seconds svid.expires_at

module _ (c : Crypto) (ca : SelfSignedCa) where
  check_id-IsIssuable :
      (spiffe_id : String) {id : SpiffeId}
      → check_id c ca spiffe_id ≡ ok id
      → IsIssuable c ca spiffe_id
  unfolding check_id
  check_id-IsIssuable spiffe_id h = or_err_ok (c.from_string spiffe_id) _ _ h λ id parsed h₁.
      guard_ok (id.trust_domain == ca.trust_domain) _ _ h₁ λ domain_ok h₂.
        guard_ok (not (id.path == "")) _ _ h₂ λ path_ok _. record {
          id = id;
          parses = parsed;
          domain = (eq_iff _ _).0 domain_ok;
          has_path = λ e. ground (arith, eq_iff id.path "");
        }

  workload_key-KeyFits :
      (csr : Option CertificateRequest) (draws : Draws) {keys : KeyPair}
      → workload_key c csr draws ≡ ok keys
      → KeyFits c csr keys.1 keys.0
  unfolding workload_key
  workload_key-KeyFits (some csr) draws h = ground arith
  workload_key-KeyFits none draws h =
      or_err_ok draws.key _ _ h λ key drawn made. (key, ground arith, ground arith)

  -- Every X.509 SVID that is signed is for a SPIFFE ID of the authority's trust domain with a path,
  -- which stands in the SVID and alone in the URIs of its leaf; the leaf is no authority, is
  -- created under the intermediate's certificate with the intermediate's key, for the request's key
  -- or a fresh one that is returned, and expires with the SVID, `computeTTL` seconds from now.
  -- (`ReadsBack` says that certificates keep their fields, and that a SPIFFE ID is the text of the
  -- URI that it parses to.)
  pub sign_x509_svid-IsX509Issue :
      ReadsBack c
      → (spiffe_id : String) (csr : Option CertificateRequest) (ttl : ℤ) (draws : Draws)
        (svid : X509Svid)
      → sign_x509_svid c ca spiffe_id csr ttl draws ≡ ok svid
      → IsX509Issue c ca spiffe_id csr ttl draws.now svid
  unfolding sign_x509_svid leaf_template
  sign_x509_svid-IsX509Issue laws spiffe_id csr ttl draws svid h =
      bind_ok (check_id c ca spiffe_id) _ h λ _ checked h₁.
        bind_ok (workload_key c csr draws) _ h₁ λ keys keyed h₂.
          or_err_ok draws.serial _ _ h₂ λ serial _ h₃.
            or_err_ok (c.url_parse spiffe_id) _ _ h₃ λ uri parsed h₄.
              or_err_ok (c.create_certificate _ _ _ _) _ _ h₄ λ der created h₅.
                or_err_ok (c.parse_certificate der) _ _ h₅ λ leaf read h₆.
                  let back = laws.read_back _ _ _ _ der leaf created read in
                  let issuable = check_id-IsIssuable spiffe_id checked in
                  let same_uri = laws.uri_text spiffe_id uri issuable.id issuable.parses parsed in
                  let same_key : keys.1 ≡ svid.private_key = cc in
                  let expires : svid.expires_at
                      ≡ draws.now
                        +ℤ seconds
                            (compute_ttl ca.default_ttl ca.max_ttl draws.now ttl (pos 0) none) =
                    cc in
                  record {
                    issuable = issuable;
                    same_id = cc;
                    leaf = leaf;
                    chain = cc;
                    template =
                        leaf_template c serial uri draws.now
                          (compute_ttl ca.default_ttl ca.max_ttl draws.now ttl (pos 0) none);
                    signed =
                        rw
                          (
                            ap (λ (x : Certificate). x.public_key) back,
                            ap (λ (x : Certificate). x.raw) back,
                          )
                          created;
                    reads = ap c.parse_certificate (ap (λ (x : Certificate). x.raw) back) ∙ read;
                    uri =
                        ap (λ (x : Certificate). x.template.uris) back ∙ ap (λ s. s ∷ []) same_uri;
                    not_ca = ap (λ (x : Certificate). x.template.is_ca) back;
                    usages = ap (λ (x : Certificate). x.template.key_usage) back;
                    ext_usages = ap (λ (x : Certificate). x.template.ext_key_usage) back;
                    key =
                        subst₂ (KeyFits c csr) same_key
                          (sym (ap (λ (x : Certificate). x.public_key) back))
                          (workload_key-KeyFits csr draws keyed);
                    expiry = expires;
                    leaf_expiry =
                        ap (λ (x : Certificate). x.template.not_after) back
                        ∙ ap truncate_seconds (sym expires);
                  }

pub record IsJwtIssue (c : Crypto) (ca : SelfSignedCa) (spiffe_id : String) (audience : List String)
    (ttl : ℤ) (draws : Draws) (svid : JwtSvid) : Type 0 where
  pub issuable : IsIssuable c ca spiffe_id
  pub same_id : svid.spiffe_id ≡ spiffe_id
  pub has_audience : audience ≢ []
  pub expiry :
      svid.expires_at
      ≡ draws.now +ℤ seconds (compute_ttl ca.default_ttl ca.max_ttl draws.now ttl (pos 0) none)
  pub signed :
      c.sign_jwt ca.jwt_signing_key ca.jwt_key_id (record {
        sub = spiffe_id;
        aud = audience;
        exp = truncate_seconds svid.expires_at;
        iat = truncate_seconds draws.now;
        jti = draws.uuid;
      })
      ≡ some svid.token

module _ (c : Crypto) (ca : SelfSignedCa) where
  -- Every JWT SVID that is signed is for a SPIFFE ID of the authority's trust domain with a path
  -- and a non-empty audience; its token is signed by the authority's JWT key, with the ID as its
  -- subject and an expiry `computeTTL` seconds from now, cut to whole seconds.
  pub sign_jwt_svid-IsJwtIssue :
      (spiffe_id : String) (audience : List String) (ttl : ℤ) (draws : Draws) (svid : JwtSvid)
      → sign_jwt_svid c ca spiffe_id audience ttl draws ≡ ok svid
      → IsJwtIssue c ca spiffe_id audience ttl draws svid
  unfolding sign_jwt_svid
  sign_jwt_svid-IsJwtIssue spiffe_id audience ttl draws svid h =
      bind_ok (check_id c ca spiffe_id) _ h λ _ checked h₁.
        guard_ok (not (is_empty audience)) _ _ h₁ λ some_audience h₂.
          guard_ok (c.can_sign ca.jwt_signing_key) _ _ h₂ λ _ h₃.
            or_err_ok (c.sign_jwt _ _ _) _ _ h₃ λ token signed h₄.
              let expires : svid.expires_at
                  ≡ draws.now
                    +ℤ seconds (compute_ttl ca.default_ttl ca.max_ttl draws.now ttl (pos 0) none) =
                cc in
              let same_token : token ≡ svid.token = cc in
              record {
                issuable = check_id-IsIssuable c ca spiffe_id checked;
                same_id = cc;
                has_audience = λ e. ground arith;
                expiry = expires;
                signed = rw (expires, ← same_token) signed;
              }
