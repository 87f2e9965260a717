-- ===== src/Attestor/Registry/Settings.antt =====
-- What evidence leaves of the attestors of a registry (types.go): all but their caches of keys.
use svidmint.Base.{
  String, ◌≡◌, refl, ap, none, List, [], ◌∷◌, map, inl, inr, Result, ok, err, Bool-cases,
  Option-cases, Result-cases, ◌∙◌,
}
use svidmint.Base.Assoc.{lookup}
use svidmint.Base.Int.{pos}
use svidmint.Attestor.Types.{AttestationResult, AttestError}
use svidmint.Attestor.Calls.{World, KeySet, Jwt}
use svidmint.Attestor.Github
use svidmint.Attestor.Github.{Github, GithubConfig}
use svidmint.Attestor.Cloudflare
use svidmint.Attestor.Cloudflare.{Cloudflare, Team, Opened}
use svidmint.Attestor.Registry.{
  Attestor, aws_sts, github_oidc, cloudflare_workers, deno_oidc, keep, attest_one, can_attest,
  attest,
}

-- The attestor with all its settings and an empty cache.
abbrev pub without_cache : Attestor → Attestor
without_cache (aws_sts config) = aws_sts config
without_cache (github_oidc a) =
    github_oidc (record { config = a.config; cached_jwks = none; jwks_fetched = pos 0 })
without_cache (cloudflare_workers a) =
    cloudflare_workers (record { teams = a.teams; key_cache = [] })
without_cache (deno_oidc a) = deno_oidc a

github_remember-config :
    (w : World) (a : Github) (r : Result AttestError KeySet)
    → (Github.remember w a r).1.config ≡ a.config
github_remember-config w a (ok keys) = refl
github_remember-config w a (err e) = refl

github_fetch-config : (w : World) (a : Github) → (Github.fetch_jwks w a).1.config ≡ a.config
unfolding Github.fetch_jwks
github_fetch-config w a = elim (Option-cases (Github.fresh_keys w a)) [
  | inl stale ↦ rw (Github.fetch_jwks, stale) (github_remember-config w a _)
  | inr (keys, fresh) ↦ rw (Github.fetch_jwks, fresh) refl
]

github_keys-config :
    (w : World) (opened : String × Jwt) (r : Result AttestError KeySet × Github)
    → (Github.with_keys w opened r).1.config ≡ r.1.config
github_keys-config w (token, tok) (keys, a) = refl

github-config :
    (w : World) (a : Github) (evidence : String) → (Github.attest w a evidence).1.config ≡ a.config
unfolding Github.attest
github-config w a evidence = elim (Result-cases (Github.open_token w evidence)) [
  | inr (e, failed) ↦ rw (Github.attest, failed) refl
  | inl (opened, ready) ↦
      rw (Github.attest, ready)
        (github_keys-config w opened (Github.fetch_jwks w a) ∙ github_fetch-config w a)
]

cloudflare_remember-teams :
    (w : World) (a : Cloudflare) (url : String) (r : Result AttestError KeySet)
    → (Cloudflare.remember w a url r).1.teams ≡ a.teams
cloudflare_remember-teams w a url (ok keys) = refl
cloudflare_remember-teams w a url (err e) = refl

cloudflare_fetch-teams :
    (w : World) (a : Cloudflare) (url : String) → (Cloudflare.fetch_jwks w a url).1.teams ≡ a.teams
unfolding Cloudflare.fetch_jwks
cloudflare_fetch-teams w a url =
    elim (Option-cases (Cloudflare.if_fresh w (lookup url a.key_cache))) [
      | inl stale ↦ rw (Cloudflare.fetch_jwks, stale) (cloudflare_remember-teams w a url _)
      | inr (keys, fresh) ↦ rw (Cloudflare.fetch_jwks, fresh) refl
    ]

cloudflare_keys-teams :
    (w : World) (opened : Opened) (r : Result AttestError KeySet × Cloudflare)
    → (Cloudflare.with_keys w opened r).1.teams ≡ r.1.teams
cloudflare_keys-teams w opened (keys, a) = refl

cloudflare-teams :
    (w : World) (a : Cloudflare) (evidence : String)
    → (Cloudflare.attest w a evidence).1.teams ≡ a.teams
unfolding Cloudflare.attest
cloudflare-teams w a evidence = elim (Result-cases (Cloudflare.open_token w a evidence)) [
  | inr (e, failed) ↦ rw (Cloudflare.attest, failed) refl
  | inl (opened, ready) ↦
      rw (Cloudflare.attest, ready)
        (cloudflare_keys-teams w opened (Cloudflare.fetch_jwks w a opened.team.certs_url)
          ∙ cloudflare_fetch-teams w a opened.team.certs_url)
]

abbrev Answer : Type 0
Answer = Result AttestError AttestationResult

keep_github : (r : Answer × Github) → (keep github_oidc r).1 ≡ github_oidc r.1
keep_github (r, a) = refl

keep_cloudflare : (r : Answer × Cloudflare) → (keep cloudflare_workers r).1 ≡ cloudflare_workers r.1
keep_cloudflare (r, a) = refl

attest_one-without_cache :
    (w : World) (a : Attestor) (evidence : String)
    → without_cache (attest_one w a evidence).1 ≡ without_cache a
unfolding attest_one
attest_one-without_cache w (aws_sts _) evidence = refl
attest_one-without_cache w (github_oidc a) evidence =
    ap without_cache (keep_github (Github.attest w a evidence))
    ∙ ap
        (λ config.
          github_oidc (record { config = config; cached_jwks = none; jwks_fetched = pos 0 }))
        (github-config w a evidence)
attest_one-without_cache w (cloudflare_workers a) evidence =
    ap without_cache (keep_cloudflare (Cloudflare.attest w a evidence))
    ∙ ap (λ teams. cloudflare_workers (record { teams = teams; key_cache = [] }))
        (cloudflare-teams w a evidence)
attest_one-without_cache w (deno_oidc _) evidence = refl

-- Evidence changes caches alone: the attestors stay, in their order and with their settings.
pub attest-without_cache :
    (w : World) (attestors : List Attestor) (t evidence : String)
    → map without_cache (attest w attestors t evidence).1 ≡ map without_cache attestors
unfolding attest
attest-without_cache w [] t evidence = refl
attest-without_cache w (a ∷ attestors) t evidence = elim (Bool-cases (can_attest a t)) [
  | inl e ↦
      rw (e, attest)
        (ap (λ n. n ∷ map without_cache attestors) (attest_one-without_cache w a evidence))
  | inr e ↦
      rw (e, attest) (ap (λ ns. without_cache a ∷ ns) (attest-without_cache w attestors t evidence))
]
