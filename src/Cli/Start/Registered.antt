-- ===== src/Cli/Start/Registered.antt =====
-- The attestors of the registry that `buildAttestorRegistry` (internal/cli/server.go) makes.
use svidmint.Base.{
  ◌≡◌, refl, true, Option, none, some, List, [], ◌∷◌, ◌++◌, map, inl, inr, All, Bool-cases,
}
use svidmint.Config.{
  AttestorsConfig, AwsLambdaSettings, CloudflareWorkersSettings, GithubOidcSettings,
  DenoOidcSettings,
}
use svidmint.Attestor.Github.{new_github}
use svidmint.Attestor.Cloudflare.{new_cloudflare}
use svidmint.Attestor.Deno.{new_deno}
use svidmint.Attestor.Registry.{Attestor, aws_sts, github_oidc, cloudflare_workers, deno_oidc}
use svidmint.Cli.Start.{
  aws_part, cloudflare_part, github_part, deno_part, team_of, build_attestor_registry,
}

-- A section of the configuration that is there and enabled, and the attestor that it describes.
pub data IsEnabled (a : AttestorsConfig) : Attestor → Type 0 where
  aws :
      (s : AwsLambdaSettings)
      → a.aws_lambda ≡ some s
      → s.enabled ≡ true
      → IsEnabled a (
          aws_sts (record {
            allowed_account_ids = s.allowed_account_ids;
            allowed_regions = s.allowed_regions;
            sts_endpoint_override = "";
          }))
  cloudflare :
      (s : CloudflareWorkersSettings)
      → a.cloudflare_workers ≡ some s
      → s.enabled ≡ true
      → IsEnabled a (cloudflare_workers (new_cloudflare (map team_of s.teams)))
  github :
      (s : GithubOidcSettings)
      → a.github_oidc ≡ some s
      → s.enabled ≡ true
      → IsEnabled a (
          github_oidc (
            new_github (record {
              allowed_repositories = s.allowed_repositories;
              issuer = s.issuer;
              jwks_endpoint_override = "";
            })))
  deno :
      (s : DenoOidcSettings)
      → a.deno_oidc ≡ some s
      → s.enabled ≡ true
      → IsEnabled a (
          deno_oidc (new_deno (record { allowed_issuers = s.issuer ∷ []; jwks_url_override = "" })))

All-append :
    (P : Attestor → Type 0) (xs ys : List Attestor) → All P xs → All P ys → All P (xs ++ ys)
All-append P [] ys h k = k
All-append P (x ∷ xs) ys (h, hs) k = (h, All-append P xs ys hs k)

pub All-middle :
    (P : Attestor → Type 0) (xs ys : List Attestor) (x : Attestor) → All P (xs ++ x ∷ ys) → P x
All-middle P [] ys x (h, hs) = h
All-middle P (y ∷ xs) ys x (h, hs) = All-middle P xs ys x hs

module _ (a : AttestorsConfig) where
  aws_part-IsEnabled :
      (o : Option AwsLambdaSettings) → a.aws_lambda ≡ o → All (IsEnabled a) (aws_part o)
  aws_part-IsEnabled none h = tt
  aws_part-IsEnabled (some s) h = elim (Bool-cases s.enabled) [
    | inl e ↦ rw e (aws s h e, tt)
    | inr e ↦ rw e tt
  ]

  cloudflare_part-IsEnabled :
      (o : Option CloudflareWorkersSettings)
      → a.cloudflare_workers ≡ o
      → All (IsEnabled a) (cloudflare_part o)
  cloudflare_part-IsEnabled none h = tt
  cloudflare_part-IsEnabled (some s) h = elim (Bool-cases s.enabled) [
    | inl e ↦ rw e (cloudflare s h e, tt)
    | inr e ↦ rw e tt
  ]

  github_part-IsEnabled :
      (o : Option GithubOidcSettings) → a.github_oidc ≡ o → All (IsEnabled a) (github_part o)
  github_part-IsEnabled none h = tt
  github_part-IsEnabled (some s) h = elim (Bool-cases s.enabled) [
    | inl e ↦ rw e (github s h e, tt)
    | inr e ↦ rw e tt
  ]

  deno_part-IsEnabled :
      (o : Option DenoOidcSettings) → a.deno_oidc ≡ o → All (IsEnabled a) (deno_part o)
  deno_part-IsEnabled none h = tt
  deno_part-IsEnabled (some s) h = elim (Bool-cases s.enabled) [
    | inl e ↦ rw e (deno s h e, tt)
    | inr e ↦ rw e tt
  ]

  pub registry-IsEnabled : All (IsEnabled a) (build_attestor_registry a)
  unfolding build_attestor_registry
  registry-IsEnabled =
      All-append (IsEnabled a) (aws_part a.aws_lambda) _ (aws_part-IsEnabled a.aws_lambda refl) (
        All-append (IsEnabled a) (cloudflare_part a.cloudflare_workers) _
          (cloudflare_part-IsEnabled a.cloudflare_workers refl)
          (All-append (IsEnabled a) (github_part a.github_oidc) _
            (github_part-IsEnabled a.github_oidc refl) (deno_part-IsEnabled a.deno_oidc refl)))
