-- ===== src/Ca/Federation/Origin.antt =====
-- Where the bundles that `Fetch` (federation.go) returns come from.
use mathlib.Core.List.{Mem, mem-cons_self, mem-cons_of_mem}
use svidmint.Base.{
  String, ◌≡◌, refl, some, List, [], ◌∷◌, ◌++◌, Result, ok, err, eqb, bind_ok, or_err_ok, guard_ok,
  inl, inr, arith, ◌==◌, eq_iff, Bool-cases, if◌then◌else◌,
}
use svidmint.Base.Assoc.{lookup, insert, lookup-insert}
use svidmint.Ca.Types.{Der, Certificate, TrustBundle}
use svidmint.Ca.Federation.{
  FederationBundle, BundleKey, FetchError, Reply, Network, Bundles, parse_all, authorities,
  fetch_one, wrap, fetch_into,
}

-- the certificates of the keys that are for X.509 SVIDs, in their order
abbrev pub svid_ders : List BundleKey → List Der
svid_ders [] = []
svid_ders (key ∷ keys) =
    let rest = svid_ders keys in if key.key_use == "x509-svid" then key.x5c ++ rest else rest

-- Each text is read as the certificate in its place.
abbrev pub Reads : Network → List Der → List Certificate → Type 0
Reads net [] [] = Unit
Reads net [] (cert ∷ certs) = ⊥
Reads net (der ∷ ders) [] = ⊥
Reads net (der ∷ ders) (cert ∷ certs) =
    (net.parse_certificate der ≡ some cert) × Reads net ders certs

-- The bundle is what the endpoint that is configured for the trust domain has answered with.
pub record IsAnswer (net : Network) (configs : List FederationBundle) (td : String)
    (bundle : TrustBundle) : Type 0 where
  pub cfg : FederationBundle
  pub configured : Mem cfg configs
  pub domain : cfg.trust_domain ≡ td
  pub reply : Reply
  pub answered : net.get cfg.endpoint ≡ some reply
  pub status_ok : reply.status_code ≡ 200
  pub body : String
  pub read : reply.body ≡ some body
  pub keys : List BundleKey
  pub decoded : net.json_bundle body ≡ some keys
  pub named : bundle.trust_domain ≡ td
  pub certificates : Reads net (svid_ders keys) bundle.x509_authorities

Reads-append :
    (net : Network) (ders ders' : List Der) (certs certs' : List Certificate)
    → Reads net ders certs
    → Reads net ders' certs'
    → Reads net (ders ++ ders') (certs ++ certs')
Reads-append net [] ders' [] certs' h k = k
Reads-append net [] ders' (cert ∷ certs) certs' h k = absurd h
Reads-append net (der ∷ ders) ders' [] certs' h k = absurd h
Reads-append net (der ∷ ders) ders' (cert ∷ certs) certs' (h, hs) k =
    (h, Reads-append net ders ders' certs certs' hs k)

parse_all-Reads :
    (net : Network) (ders : List Der) (certs : List Certificate)
    → parse_all net ders ≡ ok certs
    → Reads net ders certs
unfolding parse_all
parse_all-Reads net [] certs h = let same : [] ≡ certs = cc in rw (← same) tt
parse_all-Reads net (der ∷ ders) certs h =
    or_err_ok (net.parse_certificate der) _ _ h λ cert parsed h₁.
      bind_ok (parse_all net ders) _ h₁ λ rest more h₂.
        let same : cert ∷ rest ≡ certs = cc in
        rw (← same) (parsed, parse_all-Reads net ders rest more)

authorities-Reads :
    (net : Network) (keys : List BundleKey) (certs : List Certificate)
    → authorities net keys ≡ ok certs
    → Reads net (svid_ders keys) certs
unfolding authorities
authorities-Reads net [] certs h = let same : [] ≡ certs = cc in rw (← same) tt
authorities-Reads net (key ∷ keys) certs h = elim (Bool-cases (key.key_use == "x509-svid")) [
  | inl e ↦ bind_ok (parse_all net key.x5c) _ (rw (e, authorities) at h) λ here parsed h₁.
      bind_ok (authorities net keys) _ h₁ λ rest more h₂.
        let same : here ++ rest ≡ certs = cc in
        rw (e, ← same)
          (Reads-append net key.x5c (svid_ders keys) here rest
            (parse_all-Reads net key.x5c here parsed) (authorities-Reads net keys rest more))
  | inr e ↦ bind_ok (authorities net keys) _ (rw (e, authorities) at h) λ rest more h₁.
      let same : rest ≡ certs = cc in rw (e, ← same) (authorities-Reads net keys rest more)
]

fetch_one-IsAnswer :
    (net : Network) (configs : List FederationBundle) (cfg : FederationBundle)
    (bundle : TrustBundle)
    → Mem cfg configs
    → wrap net cfg (fetch_one net cfg) ≡ ok bundle
    → IsAnswer net configs cfg.trust_domain bundle
unfolding fetch_one
fetch_one-IsAnswer net configs cfg bundle m h =
    guard_ok (net.can_request cfg.endpoint) _ _ (wrap-ok (fetch_one net cfg) h) λ _ h₁.
      or_err_ok (net.get cfg.endpoint) _ _ h₁ λ reply answered h₂.
        guard_ok (eqb reply.status_code 200) _ _ h₂ λ status h₃.
          or_err_ok reply.body _ _ h₃ λ body read h₄.
            or_err_ok (net.json_bundle body) _ _ h₄ λ keys decoded h₅.
              bind_ok (authorities net keys) _ h₅ λ certs parsed h₆.
                let same : certs ≡ bundle.x509_authorities = cc in
                record {
                  cfg = cfg;
                  configured = m;
                  domain = refl;
                  reply = reply;
                  answered = answered;
                  status_ok = ground arith;
                  body = body;
                  read = read;
                  keys = keys;
                  decoded = decoded;
                  named = cc;
                  certificates = rw (← same) (authorities-Reads net keys certs parsed);
                }
  where
    wrap-ok : (r : Result FetchError TrustBundle) → wrap net cfg r ≡ ok bundle → r ≡ ok bundle
    wrap-ok (ok x) h = h
    wrap-ok (err e) h = absurd (cc)

-- Every bundle under a trust domain has a property for it.
abbrev pub AllFrom : (String → TrustBundle → Type 0) → Bundles → Type 0
AllFrom P m = (td : String) (b : TrustBundle) → lookup td m ≡ some b → P td b

insert-AllFrom :
    (P : String → TrustBundle → Type 0) (td : String) (bundle : TrustBundle) (m : Bundles)
    → P td bundle
    → AllFrom P m
    → AllFrom P (insert td bundle m)
insert-AllFrom P td bundle m from h asked b found = elim (Bool-cases (td == asked)) [
  | inl e ↦
      let same : td ≡ asked = (eq_iff td asked).0 e in
      let it : bundle ≡ b = ground (arith, lookup-insert td asked bundle m) in
      rw (← same, ← it) from
  | inr e ↦ h asked b (ground (arith, lookup-insert td asked bundle m))
]

pub fetch_into-AllFrom :
    (net : Network) (configs left : List FederationBundle) (have result : Bundles)
    → ((cfg : FederationBundle) → Mem cfg left → Mem cfg configs)
    → AllFrom (IsAnswer net configs) have
    → fetch_into net have left ≡ ok result
    → AllFrom (IsAnswer net configs) result
unfolding fetch_into
fetch_into-AllFrom net configs [] have result within h done =
    let same : have ≡ result = cc in rw same at h
fetch_into-AllFrom net configs (cfg ∷ left) have result within h done =
    bind_ok (wrap net cfg (fetch_one net cfg)) _ done λ bundle got rest.
      fetch_into-AllFrom net configs left (insert cfg.trust_domain bundle have) result
        (λ x m. within x (mem-cons_of_mem cfg m))
        (insert-AllFrom (IsAnswer net configs) cfg.trust_domain bundle have
          (fetch_one-IsAnswer net configs cfg bundle (within cfg mem-cons_self) got) h)
        rest

pub nothing-AllFrom : (P : String → TrustBundle → Type 0) → AllFrom P []
unfolding lookup
nothing-AllFrom P td b h = absurd (cc)
