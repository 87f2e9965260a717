-- ===== src/Ca/Federation/Running.antt =====
-- What `GetBundle` (federation.go) answers while `Start` runs.
use mathlib.Core.List.{Mem, mem-cons_self, mem-cons_of_mem}
use svidmint.Base.{
  String, ◌≡◌, refl, sym, ap, ◌∙◌, true, none, some, Option, List, [], ◌∷◌, Result, ok, err,
}
use svidmint.Base.Assoc.{lookup}
use svidmint.Ca.Types.{TrustBundle}
use svidmint.Ca.Federation.{
  FederationBundle, FetchError, Network, Bundles, BundleFetcher, fetch_into, stored, fetch, forget,
  fetch_all, new_bundle_fetcher, Started, first, tick, get_bundle,
}
use svidmint.Ca.Federation.Origin.{IsAnswer, AllFrom, fetch_into-AllFrom, nothing-AllFrom}
use svidmint.Ca.Federation.AllOrNothing.{
  or_else, is_some, lookup-store_all, fetch_into-DistinctKeys,
}

-- One of the networks has answered with the bundle, at an endpoint that is configured for the trust
-- domain.
abbrev pub IsFrom : List Network → List FederationBundle → String → TrustBundle → Type 0
IsFrom nets configs td bundle = (net : Network) × Mem net nets × IsAnswer net configs td bundle

or_else-one :
    {P : TrustBundle → Type 0} (b : TrustBundle) (o p : Option TrustBundle)
    → ((x : TrustBundle) → o ≡ some x → P x)
    → ((x : TrustBundle) → p ≡ some x → P x)
    → or_else o p ≡ some b
    → P b
or_else-one b none p ho hp h = hp b h
or_else-one b (some x) p ho hp h = ho b h

or_else-kept : (o p : Option TrustBundle) → is_some p ≡ true → is_some (or_else o p) ≡ true
or_else-kept none p h = h
or_else-kept (some x) p h = refl

abbrev IsRunning : List Network → List FederationBundle → BundleFetcher → Type 0
IsRunning nets configs f = (f.configs ≡ configs) × AllFrom (IsFrom nets configs) f.bundles

IsFrom-more :
    (net : Network) (nets : List Network) (configs : List FederationBundle) (m : Bundles)
    → AllFrom (IsFrom nets configs) m
    → AllFrom (IsFrom (net ∷ nets) configs) m
IsFrom-more net nets configs m h td b found =
    let (n, met, answer) = h td b found in (n, mem-cons_of_mem net met, answer)

-- what one fetch leaves, whether it succeeds or not
stored-IsRunning :
    (net : Network) (nets : List Network) (configs : List FederationBundle) (f : BundleFetcher)
    (r : Result FetchError Bundles)
    → fetch_into net [] f.configs ≡ r
    → IsRunning nets configs f
    → IsRunning (net ∷ nets) configs (forget (stored f r)).1
      × ((td : String)
          → is_some (get_bundle f td) ≡ true
          → is_some (get_bundle (forget (stored f r)).1 td) ≡ true)
unfolding get_bundle
stored-IsRunning net nets configs f (err e) run (same, from) =
    ((same, IsFrom-more net nets configs f.bundles from), λ td h. h)
stored-IsRunning net nets configs f (ok result) run (same, from) =
    let distinct = fetch_into-DistinctKeys net f.configs [] result tt run in
    let all =
      fetch_into-AllFrom net configs f.configs [] result (λ cfg m. rw (← same) m)
        (nothing-AllFrom (IsAnswer net configs)) run in
    (
      (
        same,
        λ td b h.
            or_else-one b (lookup td result) (lookup td f.bundles)
              (λ x e. (net, mem-cons_self, all td x e))
              (IsFrom-more net nets configs f.bundles from td)
              (sym (lookup-store_all result f.bundles td distinct) ∙ h),
      ),
      λ td h.
          ap is_some (lookup-store_all result f.bundles td distinct)
          ∙ or_else-kept (lookup td result) (lookup td f.bundles) h,
    )

fetch_all-IsRunning :
    (net : Network) (nets : List Network) (configs : List FederationBundle) (f : BundleFetcher)
    → IsRunning nets configs f
    → IsRunning (net ∷ nets) configs (fetch_all net f).1
      × ((td : String)
          → is_some (get_bundle f td) ≡ true
          → is_some (get_bundle (fetch_all net f).1 td) ≡ true)
unfolding fetch_all fetch
fetch_all-IsRunning net nets configs f i =
    stored-IsRunning net nets configs f (fetch_into net [] f.configs) refl i

new-IsRunning :
    (configs : List FederationBundle) → IsRunning [] configs (new_bundle_fetcher configs)
unfolding new_bundle_fetcher
new-IsRunning configs = (refl, nothing-AllFrom (IsFrom [] configs))

Started-IsRunning :
    (configs : List FederationBundle) (nets : List Network) (f : BundleFetcher)
    → Started (new_bundle_fetcher configs) nets f
    → IsRunning nets configs f
Started-IsRunning configs _ _ (first net) =
    (fetch_all-IsRunning net [] configs (new_bundle_fetcher configs) (new-IsRunning configs)).0
Started-IsRunning configs _ _ (tick net {nets} f run) =
    (fetch_all-IsRunning net nets configs f (Started-IsRunning configs nets f run)).0

-- While `Start` runs, however many of its fetches fail: a bundle that `GetBundle` answers with for
-- a trust domain is named for that domain, and has the certificates for X.509 SVIDs of the document
-- with which, at one of the fetches, an endpoint that is configured for that domain answered with
-- status 200; and a domain that has a bundle never loses it at a later fetch.
pub Started-IsFrom :
    (configs : List FederationBundle) (nets : List Network) (f : BundleFetcher)
    → Started (new_bundle_fetcher configs) nets f
    → ((td : String) (bundle : TrustBundle)
        → get_bundle f td ≡ some bundle
        → IsFrom nets configs td bundle)
      × ((net : Network) (td : String)
          → is_some (get_bundle f td) ≡ true
          → is_some (get_bundle (fetch_all net f).1 td) ≡ true)
unfolding get_bundle
Started-IsFrom configs nets f run =
    let i = Started-IsRunning configs nets f run in
    (i.1, λ net. (fetch_all-IsRunning net nets configs f i).1)
