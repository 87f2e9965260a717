-- ===== src/Sdk/Source.antt =====
-- sdk/go/x509source.go: the source of X.509 SVIDs, which a goroutine refreshes.
pub mod Loop
mod Fetched
mod Steps
pub mod Current
pub mod Ends
pub mod Waits
use svidmint.Base.{
  String, ◌==◌, Bool, true, false, not, Option, none, some, List, [], ◌∷◌, Result, ok, err, ◌>>=◌,
  ◌>>◌, guard, or_err, is_empty, if◌then◌else◌,
}
use svidmint.Base.Int.{pos, quot, leb_ℤ}
use svidmint.Ca.{Time, Duration, Certificate, Crypto}
use svidmint.Ca.Ttl.{until}
use svidmint.Sdk.Types.{
  X509SvidResponse, BundleResponse, Network, Formats, EvidenceJson, SdkError, empty_chain,
  bad_certificate_pem, bad_certificate, no_private_key, bad_key_pem, bad_key, invalid_spiffe_id,
  invalid_trust_domain, bad_authority_pem, bad_authority, source_closed, no_svid_available,
  no_bundle_available, Svid, Bundle,
}
use svidmint.Sdk.Client.{Client, ClientOption, new_client, attest_x509, get_bundle}

-- `X509Source`; the mutex makes every access one step, and `cancelled` is the state of the context
-- that `cancel` ends.
pub record X509Source : Type 0 where
  pub client : Client
  pub svid : Option Svid
  pub bundle : Option Bundle
  pub closed : Bool
  pub cancelled : Bool

-- the source that `NewX509Source` makes first
abbrev pub fresh_source : Client → X509Source
fresh_source client = record {
  client = client;
  svid = none;
  bundle = none;
  closed = false;
  cancelled = false;
}

-- `GetX509SVID`
unfoldable pub get_x509_svid : X509Source → Result SdkError Svid
get_x509_svid s = if s.closed then err source_closed else or_err s.svid no_svid_available

-- `GetX509BundleForTrustDomain`: the trust domain is not looked at.
unfoldable pub get_x509_bundle_for_trust_domain : X509Source → String → Result SdkError Bundle
get_x509_bundle_for_trust_domain s td =
    if s.closed then err source_closed else or_err s.bundle no_bundle_available

-- the two steps of `Close`
unfoldable pub cancel : X509Source → X509Source
cancel s = record s { cancelled = true }

unfoldable pub mark_closed : X509Source → X509Source
mark_closed s = record s { closed = true }

unfoldable pub close : X509Source → X509Source
unfolding cancel mark_closed
close s = mark_closed (cancel s)

-- the last step of `refresh`
unfoldable pub store_both : Svid × Bundle → X509Source → X509Source
store_both (svid, bundle) s = record s { svid = some svid; bundle = some bundle }

abbrev pub commit :
    X509Source → Result SdkError (Svid × Bundle) → Result SdkError (Unit {0}) × X509Source
commit s (err e) = (err e, s)
commit s (ok both) = (ok tt, store_both both s)

-- what the refresh loop finds when it looks at the source: nothing to wait for, or how long to wait
abbrev pub wait_for : Time → Certificate → Duration
wait_for now cert =
    let half_life = quot (until now cert.template.not_after) 2 in
    if leb_ℤ half_life (pos 0) then pos 1_000_000_000 else half_life

abbrev pub first_wait : Time → List Certificate → Option Duration
first_wait now [] = none
first_wait now (cert ∷ certs) = some (wait_for now cert)

abbrev pub svid_wait : Time → Option Svid → Option Duration
svid_wait now none = none
svid_wait now (some svid) = first_wait now svid.certificates

-- the head of `refreshLoop`
unfoldable pub next_wait : Time → X509Source → Option Duration
next_wait now s = if s.closed then none else svid_wait now s.svid

module _ {TlsCertificate : Type 0} (c : Crypto) (fmt : Formats TlsCertificate) where
  -- the loops over PEM certificates, with the errors of the one or the other
  unfoldable pub parse_certs :
      SdkError → SdkError → List String → Result SdkError (List Certificate)
  parse_certs no_block no_cert [] = ok []
  parse_certs no_block no_cert (cert_pem ∷ pems) = do
    block ← or_err (fmt.pem_decode cert_pem) no_block
    cert ← or_err (c.parse_certificate block) no_cert
    certs ← parse_certs no_block no_cert pems
    ok (cert ∷ certs)

  -- `parseSVIDResponse`
  unfoldable pub parse_svid_response : X509SvidResponse → Result SdkError Svid
  parse_svid_response resp = do
    guard (not (is_empty resp.svid.cert_chain)) empty_chain
    certs ← parse_certs bad_certificate_pem bad_certificate resp.svid.cert_chain
    guard (not (resp.svid.private_key == "")) no_private_key
    block ← or_err (fmt.pem_decode resp.svid.private_key) bad_key_pem
    key ← or_err (fmt.parse_ec_private_key block) bad_key
    id ← or_err (c.from_string resp.spiffe_id) invalid_spiffe_id
    ok (record { id = id; certificates = certs; private_key = key })

  -- `parseBundleResponse`
  unfoldable pub parse_bundle_response : BundleResponse → Result SdkError Bundle
  parse_bundle_response resp = do
    td ← or_err (c.trust_domain_from_string resp.trust_domain) invalid_trust_domain
    authorities ← parse_certs bad_authority_pem bad_authority resp.x509_authorities
    ok (record { trust_domain = td; x509_authorities = authorities })

  -- `refresh` up to the lock
  unfoldable pub fetch : EvidenceJson → Network → Client → Result SdkError (Svid × Bundle)
  unfolding parse_svid_response parse_bundle_response
  fetch json net client = do
    resp ← attest_x509 fmt json net client
    svid ← parse_svid_response resp
    bundle_resp ← get_bundle fmt json net client
    bundle ← parse_bundle_response bundle_resp
    ok (svid, bundle)

  -- `refresh`
  unfoldable pub refresh :
      EvidenceJson → Network → X509Source → Result SdkError (Unit {0}) × X509Source
  unfolding fetch store_both
  refresh json net s = commit s (fetch json net s.client)

  abbrev pub started : Result SdkError (Unit {0}) × X509Source → Result SdkError X509Source
  started (err e, s) = err e
  started (ok _, s) = ok s

  -- `NewX509Source`, up to the start of the goroutine
  unfoldable pub new_x509_source :
      EvidenceJson → Network → List ClientOption → Result SdkError X509Source
  unfolding refresh
  new_x509_source json net opts = do
    client ← new_client opts
    started (refresh json net (fresh_source client))
