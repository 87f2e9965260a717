-- ===== src/Ca/Federation/AllOrNothing.antt =====
-- What `Fetch` (federation.go) leaves in the fetcher, and how often it is called.
use mathlib.Core.List.{Mem}
use svidmint.Base.{
  String, ◌≡◌, ◌≢◌, refl, ◌∙◌, ap, Bool, true, false, Option, none, some, List, [], ◌∷◌, Result, ok,
  err, bind_ok, arith, All, Bool-cases, inl, inr, ◌==◌, eq_iff, ◌*◌,
}
use svidmint.Base.Int.{ℤ, pos, ◌≤ℤ◌}
use svidmint.Base.Assoc.{lookup, insert, lookup-insert, DistinctKeys, Fresh, insert-DistinctKeys}
use svidmint.Ca.Types.{Duration, TrustBundle, second}
use svidmint.Ca.Federation.Origin.{IsAnswer, AllFrom, fetch_into-AllFrom, nothing-AllFrom}
use svidmint.Ca.Federation.{
  FederationBundle, FetchError, Network, Bundles, BundleFetcher, fetch_one, wrap, fetch_into,
  store_all, stored, fetch, get_bundle, shorter, min_interval, min_refresh_interval,
}

abbrev pub or_else : Option TrustBundle → Option TrustBundle → Option TrustBundle
or_else none o = o
or_else (some b) o = some b

abbrev pub is_some : Option TrustBundle → Bool
is_some none = false
is_some (some b) = true

lookup-Fresh : (k : String) (m : Bundles) → Fresh k m → lookup k m ≡ none
unfolding lookup
lookup-Fresh k [] h = refl
lookup-Fresh k ((j, b) ∷ m) (n, h) = elim (Bool-cases (j == k)) [
  | inl same ↦ absurd (n ((eq_iff j k).0 same))
  | inr other ↦ rw other (lookup-Fresh k m h)
]

pub lookup-store_all :
    (result bundles : Bundles) (td : String)
    → DistinctKeys result
    → lookup td (store_all result bundles) ≡ or_else (lookup td result) (lookup td bundles)
unfolding store_all lookup
lookup-store_all [] bundles td d = refl
lookup-store_all ((k, b) ∷ result) bundles td (fresh, d) =
    lookup-store_all result (insert k b bundles) td d
    ∙ ap (or_else (lookup td result)) (lookup-insert k td b bundles)
    ∙ elim (Bool-cases (k == td)) [
      | inl same ↦
          let absent : lookup td result ≡ none =
            rw ((eq_iff k td).0 same) at (lookup-Fresh k result fresh) in
          rw (same, absent) refl
      | inr other ↦ rw other refl
    ]

module _ (net : Network) where
  pub fetch_into-DistinctKeys :
      (configs : List FederationBundle) (have result : Bundles)
      → DistinctKeys have
      → fetch_into net have configs ≡ ok result
      → DistinctKeys result
  unfolding fetch_into
  fetch_into-DistinctKeys [] have result d h = let same : have ≡ result = cc in rw same at d
  fetch_into-DistinctKeys (cfg ∷ configs) have result d h =
      bind_ok (wrap net cfg (fetch_one net cfg)) _ h λ bundle _ h₁.
        fetch_into-DistinctKeys configs (insert cfg.trust_domain bundle have) result
          (insert-DistinctKeys cfg.trust_domain bundle have d) h₁

  fetch_into-kept :
      (configs : List FederationBundle) (have result : Bundles) (td : String)
      → is_some (lookup td have) ≡ true
      → fetch_into net have configs ≡ ok result
      → is_some (lookup td result) ≡ true
  unfolding fetch_into
  fetch_into-kept [] have result td k h = let same : have ≡ result = cc in rw same at k
  fetch_into-kept (cfg ∷ configs) have result td k h =
      bind_ok (wrap net cfg (fetch_one net cfg)) _ h λ bundle _ h₁.
        fetch_into-kept configs (insert cfg.trust_domain bundle have) result td
          (ground (arith, lookup-insert cfg.trust_domain td bundle have)) h₁

  fetch_into-All :
      (configs : List FederationBundle) (have result : Bundles)
      → fetch_into net have configs ≡ ok result
      → All (λ (cfg : FederationBundle). is_some (lookup cfg.trust_domain result) ≡ true) configs
  unfolding fetch_into
  fetch_into-All [] have result h = tt
  fetch_into-All (cfg ∷ configs) have result h =
      bind_ok (wrap net cfg (fetch_one net cfg)) _ h λ bundle _ h₁.
        let td = cfg.trust_domain in
        (
          fetch_into-kept configs (insert td bundle have) result td
              (ground (arith, lookup-insert td td bundle have, eq_iff td td)) h₁,
          fetch_into-All configs (insert td bundle have) result h₁,
        )

  stored-ok :
      (f f' : BundleFetcher) (r : Result FetchError Bundles) (result : Bundles)
      → stored f r ≡ (ok result, f')
      → (r ≡ ok result) × (f'.bundles ≡ store_all result f.bundles)
  stored-ok f f' (err e) result h = absurd (ground arith)
  stored-ok f f' (ok found) result h = (ground arith, ground arith)

  not_configured :
      (configs : List FederationBundle) (result : Bundles) (td : String) (o : Option TrustBundle)
      → AllFrom (IsAnswer net configs) result
      → lookup td result ≡ o
      → ((cfg : FederationBundle) → Mem cfg configs → cfg.trust_domain ≢ td)
      → o ≡ none
  not_configured configs result td none from found other = refl
  not_configured configs result td (some b) from found other =
      let answer = from td b found in absurd (other answer.cfg answer.configured answer.domain)

  -- A successful `Fetch` has a bundle for the trust domain of every configured endpoint. Each
  -- bundle that it returns for a domain is named for it and has the certificates for X.509 SVIDs of
  -- the document with which an endpoint that is configured for the domain answered with status 200.
  -- Afterwards `GetBundle` answers with the fetched bundle where there is one, and as before where
  -- there is none, as for every domain that is not configured.
  pub fetch-get_bundle :
      (f f' : BundleFetcher) (result : Bundles)
      → fetch net f ≡ (ok result, f')
      → All (λ (cfg : FederationBundle). is_some (lookup cfg.trust_domain result) ≡ true) f.configs
        × AllFrom (IsAnswer net f.configs) result
        × ((td : String) → get_bundle f' td ≡ or_else (lookup td result) (get_bundle f td))
        × ((td : String)
            → ((cfg : FederationBundle) → Mem cfg f.configs → cfg.trust_domain ≢ td)
            → get_bundle f' td ≡ get_bundle f td)
  unfolding fetch get_bundle
  fetch-get_bundle f f' result h =
      let (fetched, kept) = stored-ok f f' (fetch_into net [] f.configs) result h in
      let from =
        fetch_into-AllFrom net f.configs f.configs [] result (λ cfg m. m)
          (nothing-AllFrom (IsAnswer net f.configs)) fetched in
      let answers : (td : String)
          → lookup td f'.bundles ≡ or_else (lookup td result) (lookup td f.bundles) =
        λ td.
          ap (lookup td) kept
          ∙ lookup-store_all result f.bundles td
              (fetch_into-DistinctKeys f.configs [] result tt fetched) in
      (
        fetch_into-All f.configs [] result fetched,
        from,
        answers,
        λ td other.
            answers td
            ∙ ap (λ o. or_else o (lookup td f.bundles))
                (not_configured f.configs result td (lookup td result) from refl other),
      )

  shorter-below : (o : Option Duration) (least : ℤ) → shorter o least ≤ℤ least
  shorter-below none least = omega arith
  shorter-below (some d) least = ground arith

  min_interval-below :
      (configs : List FederationBundle) (least : ℤ) → min_interval net least configs ≤ℤ least
  unfolding min_interval
  min_interval-below [] least = omega arith
  min_interval-below (cfg ∷ configs) least =
      let next = shorter (net.parse_duration cfg.refresh_interval) least in
      let rest = min_interval-below configs next in
      let here = shorter-below (net.parse_duration cfg.refresh_interval) least in omega arith

  -- The interval is at most this configuration's.
  abbrev pub IsWithin : ℤ → FederationBundle → Type 0
  IsWithin interval cfg =
      (d : Duration) → net.parse_duration cfg.refresh_interval ≡ some d → interval ≤ℤ d

  shorter-some : (d least : ℤ) → shorter (some d) least ≤ℤ d
  shorter-some d least = ground arith

  min_interval-IsWithin :
      (configs : List FederationBundle) (least : ℤ)
      → All (IsWithin (min_interval net least configs)) configs
  unfolding min_interval
  min_interval-IsWithin [] least = tt
  min_interval-IsWithin (cfg ∷ configs) least =
      let next = shorter (net.parse_duration cfg.refresh_interval) least in
      (
        λ d parsed.
            let rest = min_interval-below configs next in
            let here : next ≤ℤ d = rw parsed (shorter-some d least) in omega arith,
        min_interval-IsWithin configs next,
      )

  -- Bundles are fetched again after at most five minutes, and after at most the interval of every
  -- configuration whose interval can be parsed.
  pub min_refresh_interval-IsWithin :
      (f : BundleFetcher)
      → (min_refresh_interval net f ≤ℤ pos (5 * 60 * second))
        × All (IsWithin (min_refresh_interval net f)) f.configs
  min_refresh_interval-IsWithin f = (
    min_interval-below f.configs (pos (5 * 60 * second)),
    min_interval-IsWithin f.configs (pos (5 * 60 * second)),
  )
