-- ===== src/Tests/Federated.antt =====
-- internal/ca/federation.go at concrete inputs.
use mathlib.Core.List.{Mem}
use svidmint.Base.{String, ◌≡◌, ◌≢◌, refl, true, some, [], ◌∷◌, ok, All, ◌*◌}
use svidmint.Base.Int.{pos}
use svidmint.Base.Assoc.{lookup, insert}
use svidmint.Ca.{TrustBundle, second}
use svidmint.Ca.Federation.{
  FederationBundle, Network, BundleFetcher, parse_all, authorities, fetch_one, fetch_into,
  store_all, fetch, get_bundle, fetch_all, new_bundle_fetcher, first,
}
use svidmint.Ca.Federation.Origin.{IsAnswer, AllFrom}
use svidmint.Ca.Federation.AllOrNothing.{or_else, is_some, fetch-get_bundle}
use svidmint.Ca.Federation.Running.{IsFrom, Started-IsFrom}
use svidmint.Tests.Toy.{web_leaf}

abbrev reachable : Network
reachable = record {
  can_request = λ url. true;
  get = λ url. some (record { status_code = 200; body = some "keys" });
  json_bundle = λ body. some (record { key_use = "x509-svid"; x5c = "leaf" ∷ [] } ∷ []);
  parse_certificate = λ der. some web_leaf;
  parse_duration = λ s. some (pos (60 * second));
}

abbrev partner : FederationBundle
partner = record {
  trust_domain = "partner";
  endpoint = "https://partner";
  bundle_type = "";
  refresh_interval = "1m";
}

abbrev bundle : TrustBundle
bundle = record {
  trust_domain = "partner";
  x509_authorities = web_leaf ∷ [];
  jwt_authorities = [];
  sequence_number = 0;
}

abbrev fetcher : BundleFetcher
fetcher = record { configs = partner ∷ []; bundles = [] }

abbrev fetched : BundleFetcher
fetched = record fetcher { bundles = ("partner", bundle) ∷ [] }

fetches : fetch reachable fetcher ≡ (ok (("partner", bundle) ∷ []), fetched)
unfolding fetch fetch_into fetch_one authorities parse_all store_all insert
fetches = refl

fetch-get_bundle_example :
    All
      (λ (cfg : FederationBundle).
        is_some (lookup cfg.trust_domain (("partner", bundle) ∷ [])) ≡ true)
      fetcher.configs
    × AllFrom (IsAnswer reachable (partner ∷ [])) (("partner", bundle) ∷ [])
    × ((td : String)
        → get_bundle fetched td
          ≡ or_else (lookup td (("partner", bundle) ∷ [])) (get_bundle fetcher td))
    × ((td : String)
        → ((cfg : FederationBundle) → Mem cfg (partner ∷ []) → cfg.trust_domain ≢ td)
        → get_bundle fetched td ≡ get_bundle fetcher td)
fetch-get_bundle_example =
    fetch-get_bundle reachable fetcher fetched (("partner", bundle) ∷ []) fetches

Started-IsFrom_example :
    ((td : String) (b : TrustBundle)
      → get_bundle (fetch_all reachable (new_bundle_fetcher (partner ∷ []))).1 td ≡ some b
      → IsFrom (reachable ∷ []) (partner ∷ []) td b)
    × ((net : Network) (td : String)
        → is_some (get_bundle (fetch_all reachable (new_bundle_fetcher (partner ∷ []))).1 td) ≡ true
        → is_some (
            get_bundle
              (fetch_all net (fetch_all reachable (new_bundle_fetcher (partner ∷ []))).1).1
              td)
          ≡ true)
Started-IsFrom_example =
    Started-IsFrom (partner ∷ []) (reachable ∷ [])
      (fetch_all reachable (new_bundle_fetcher (partner ∷ []))).1 (first reachable)
