-- ===== src/Sdk/Source/Fetched.antt =====
-- What `refresh` of x509source.go has fetched when it succeeds: an SVID with a certificate.
use mathlib.Core.List.{Mem}
use svidmint.Base.{
  String, ◌==◌, ◌≡◌, sym, ap, ◌∙◌, false, none, List, [], ◌∷◌, ok, bind_ok, or_err_ok, guard_ok,
  arith, is_empty, not,
}
use svidmint.Ca.{Time, Crypto, Certificate}
use svidmint.Sdk.Types.{X509SvidResponse, Network, Formats, EvidenceJson, SdkError, Svid, Bundle}
use svidmint.Sdk.Client.{Client, attest_x509, get_bundle}
use svidmint.Sdk.Source.{first_wait, parse_certs, parse_svid_response, parse_bundle_response, fetch}

module _ {TlsCertificate : Type 0} (c : Crypto) (fmt : Formats TlsCertificate)
    (json : EvidenceJson) where
  -- One successful fetch by the client, from one of the networks, gave both.
  pub record IsFetched (nets : List Network) (client : Client) (both : Svid × Bundle) : Type 0 where
    pub net : Network
    pub met : Mem net nets
    pub fetched : fetch c fmt json net client ≡ ok both

  pub first_wait-some :
      {P : Type 0} (now : Time) (certs : List Certificate)
      → is_empty certs ≡ false
      → first_wait now certs ≡ none
      → P
  first_wait-some now [] n h = absurd (cc)
  first_wait-some now (cert ∷ certs) n h = absurd (cc)

  parse_certs-not_empty :
      (no_block no_cert : SdkError) (pems : List String) (certs : List Certificate)
      → is_empty pems ≡ false
      → parse_certs c fmt no_block no_cert pems ≡ ok certs
      → is_empty certs ≡ false
  unfolding parse_certs
  parse_certs-not_empty no_block no_cert [] certs n h = cc
  parse_certs-not_empty no_block no_cert (pem ∷ pems) certs n h =
      or_err_ok (fmt.pem_decode pem) _ _ h λ block _ h₁.
        or_err_ok (c.parse_certificate block) _ _ h₁ λ cert _ h₂.
          bind_ok (parse_certs c fmt no_block no_cert pems) _ h₂ λ rest _ h₃.
            let same : cert ∷ rest ≡ certs = cc in
            ap (λ (xs : List Certificate). is_empty xs) (sym same)

  parse_svid_response-not_empty :
      (resp : X509SvidResponse) (svid : Svid)
      → parse_svid_response c fmt resp ≡ ok svid
      → is_empty svid.certificates ≡ false
  unfolding parse_svid_response
  parse_svid_response-not_empty resp svid h =
      guard_ok (not (is_empty resp.svid.cert_chain)) _ _ h λ some_chain h₁.
        bind_ok (parse_certs c fmt _ _ resp.svid.cert_chain) _ h₁ λ certs parsed h₂.
          guard_ok (not (resp.svid.private_key == "")) _ _ h₂ λ _ h₃.
            or_err_ok (fmt.pem_decode resp.svid.private_key) _ _ h₃ λ block _ h₄.
              or_err_ok (fmt.parse_ec_private_key block) _ _ h₄ λ key _ h₅.
                or_err_ok (c.from_string resp.spiffe_id) _ _ h₅ λ id _ h₆.
                  let certs_of : certs ≡ svid.certificates = cc in
                  let some_pem : is_empty resp.svid.cert_chain ≡ false = ground arith in
                  ap (λ (xs : List Certificate). is_empty xs) (sym certs_of)
                  ∙ parse_certs-not_empty _ _ _ certs some_pem parsed

  -- what is stored has a certificate, so that the loop has an expiry to look at
  pub fetch-not_empty :
      (net : Network) (client : Client) (both : Svid × Bundle)
      → fetch c fmt json net client ≡ ok both
      → is_empty both.0.certificates ≡ false
  unfolding fetch
  fetch-not_empty net client both h = bind_ok (attest_x509 fmt json net client) _ h λ resp _ h₁.
      bind_ok (parse_svid_response c fmt resp) _ h₁ λ svid parsed h₂.
        bind_ok (get_bundle fmt json net client) _ h₂ λ bundle_resp _ h₃.
          bind_ok (parse_bundle_response c fmt bundle_resp) _ h₃ λ bundle _ h₄.
            let same : svid ≡ both.0 = cc in
            ap (λ (x : Svid). is_empty x.certificates) (sym same)
            ∙ parse_svid_response-not_empty resp svid parsed
