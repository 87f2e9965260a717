-- ===== src/Ca/Federation.antt =====
-- internal/ca/federation.go: the fetcher of the bundles of other trust domains.
pub mod Origin
pub mod AllOrNothing
pub mod Running
use svidmint.Base.{
  ℕ, ◌*◌, zero, String, ◌==◌, Bool, Option, none, some, List, [], ◌∷◌, ◌++◌, eqb, Result, ok, err,
  ◌>>=◌, ◌>>◌, guard, or_err, if◌then◌else◌,
}
use svidmint.Base.Int.{pos, ltb_ℤ}
use svidmint.Base.Assoc.{lookup, insert}
use svidmint.Ca.Types.{Duration, Der, Certificate, TrustBundle, second}

-- `config.FederationBundleConfig`
pub record FederationBundle : Type 0 where
  pub trust_domain : String
  pub endpoint : String
  pub bundle_type : String
  pub refresh_interval : String

-- `spiffeBundleKeyJSON`
pub record BundleKey : Type 0 where
  pub key_use : String
  pub x5c : List Der

pub data FetchError : Type 0 where
  bad_request request_failed bad_status unreadable_body bad_document bad_certificate : FetchError
  fetching_bundle : String → FetchError → FetchError

-- The answer of an endpoint: its status, and its body where that can be read.
pub record Reply : Type 0 where
  pub status_code : ℕ
  pub body : Option String

-- net/http, encoding/json, crypto/x509 and time, during one fetch.
pub record Network : Type 0 where
  pub can_request : String → Bool
  pub get : String → Option Reply
  pub json_bundle : String → Option (List BundleKey)
  pub parse_certificate : Der → Option Certificate
  pub parse_duration : String → Option Duration

abbrev pub Bundles : Type 0
Bundles = List (String × TrustBundle)

-- `BundleFetcher`
pub record BundleFetcher : Type 0 where
  pub configs : List FederationBundle
  pub bundles : Bundles

module _ (net : Network) where
  unfoldable pub parse_all : List Der → Result FetchError (List Certificate)
  parse_all [] = ok []
  parse_all (raw ∷ more) = do
    cert ← or_err (net.parse_certificate raw) bad_certificate
    certs ← parse_all more
    ok (cert ∷ certs)

  -- the loop over the keys
  unfoldable pub authorities : List BundleKey → Result FetchError (List Certificate)
  authorities [] = ok []
  authorities (key ∷ keys) = do
    certs ← if key.key_use == "x509-svid" then parse_all key.x5c else ok []
    more ← authorities keys
    ok (certs ++ more)

  -- `fetchOne`
  unfoldable pub fetch_one : FederationBundle → Result FetchError TrustBundle
  fetch_one cfg = do
    guard (net.can_request cfg.endpoint) bad_request
    resp ← or_err (net.get cfg.endpoint) request_failed
    guard (eqb resp.status_code 200) bad_status
    body ← or_err resp.body unreadable_body
    keys ← or_err (net.json_bundle body) bad_document
    certs ← authorities keys
    ok (record {
      trust_domain = cfg.trust_domain;
      x509_authorities = certs;
      jwt_authorities = [];
      sequence_number = 0;
    })

  abbrev pub wrap : FederationBundle → Result FetchError TrustBundle → Result FetchError TrustBundle
  wrap cfg (ok bundle) = ok bundle
  wrap cfg (err e) = err (fetching_bundle cfg.trust_domain e)

  -- the loop of `Fetch` over the configurations, onto what it has so far
  unfoldable pub fetch_into : Bundles → List FederationBundle → Result FetchError Bundles
  fetch_into result [] = ok result
  fetch_into result (cfg ∷ configs) = do
    bundle ← wrap cfg (fetch_one cfg)
    fetch_into (insert cfg.trust_domain bundle result) configs

-- the loop that stores what was fetched
unfoldable pub store_all : Bundles → Bundles → Bundles
store_all [] bundles = bundles
store_all (pair ∷ result) bundles = store_all result (insert pair.0 pair.1 bundles)

abbrev pub stored :
    BundleFetcher → Result FetchError Bundles → Result FetchError Bundles × BundleFetcher
stored f (err e) = (err e, f)
stored f (ok result) = (ok result, record f { bundles = store_all result f.bundles })

-- `Fetch`
unfoldable pub fetch : Network → BundleFetcher → Result FetchError Bundles × BundleFetcher
fetch net f = stored f (fetch_into net [] f.configs)

abbrev pub forget :
    Result FetchError Bundles × BundleFetcher → Result FetchError (Unit {0}) × BundleFetcher
forget (ok _, f) = (ok tt, f)
forget (err e, f) = (err e, f)

-- `fetchAll`
unfoldable pub fetch_all : Network → BundleFetcher → Result FetchError (Unit {0}) × BundleFetcher
unfolding fetch
fetch_all net f = forget (fetch net f)

-- `NewBundleFetcher`
unfoldable pub new_bundle_fetcher : List FederationBundle → BundleFetcher
new_bundle_fetcher configs = record { configs = configs; bundles = [] }

-- `Start`: the first fetch, and one at every tick until the context ends; a fetch that fails is
-- not looked at. The network may be another at every fetch; the list has those so far.
pub data Started (f₀ : BundleFetcher) : List Network → BundleFetcher → Type 0 where
  first : (net : Network) → Started f₀ (net ∷ []) (fetch_all net f₀).1
  tick :
      (net : Network) {nets : List Network} (f : BundleFetcher)
      → Started f₀ nets f
      → Started f₀ (net ∷ nets) (fetch_all net f).1

-- `GetBundle`
unfoldable pub get_bundle : BundleFetcher → String → Option TrustBundle
get_bundle f trust_domain = lookup trust_domain f.bundles

abbrev pub shorter : Option Duration → Duration → Duration
shorter none least = least
shorter (some d) least = if ltb_ℤ d least then d else least

-- `minRefreshInterval`: the loop, from the least so far
unfoldable pub min_interval : Network → Duration → List FederationBundle → Duration
min_interval net least [] = least
min_interval net least (cfg ∷ configs) =
    min_interval net (shorter (net.parse_duration cfg.refresh_interval) least) configs

abbrev pub min_refresh_interval : Network → BundleFetcher → Duration
min_refresh_interval net f = min_interval net (pos (5 * 60 * second)) f.configs
