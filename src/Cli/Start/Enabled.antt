-- ===== src/Cli/Start/Enabled.antt =====
-- The registry that `buildAttestorRegistry` (internal/cli/server.go) makes, with
-- internal/attestor/registry.go: which evidence a started server looks at.
use mathlib.Core.Path.{subst}
use svidmint.Base.{
  String, ◌≡◌, refl, sym, ap, ◌∙◌, true, false, Option, none, some, List, [], ◌∷◌, ◌++◌, inl, inr,
  Result, ok, All, Bool-cases, arith,
}
use svidmint.Config.{
  AttestorsConfig, AwsLambdaSettings, CloudflareWorkersSettings, GithubOidcSettings,
}
use svidmint.Attestor.{World, AttestationResult, AttestError}
use svidmint.Attestor.Registry.{
  Attestor, aws_sts, github_oidc, cloudflare_workers, name, can_attest, attest_one, attest,
}
use svidmint.Attestor.Registry.Routing.{IsRouted, attest-IsRouted}
use svidmint.Cli.Start.{aws_part, cloudflare_part, github_part, build_attestor_registry}
use svidmint.Cli.Start.Registered.{
  IsEnabled, aws, cloudflare, github, deno, All-middle, registry-IsEnabled,
}

-- attestors that are not asked
abbrev Others : String → List Attestor → Type 0
Others t attestors = All (λ x. can_attest x t ≡ false) attestors

module _ (w : World) (t evidence : String) where
  abbrev answer_of : List Attestor → Result AttestError AttestationResult
  answer_of attestors = (attest w attestors t evidence).0

  attest-skip : (xs ys : List Attestor) → Others t xs → answer_of (xs ++ ys) ≡ answer_of ys
  unfolding attest
  attest-skip [] ys h = refl
  attest-skip (x ∷ xs) ys (h, hs) = rw (h, answer_of, attest) (attest-skip xs ys hs)

  attest-first :
      (x : Attestor) (ys : List Attestor)
      → can_attest x t ≡ true
      → answer_of (x ∷ ys) ≡ (attest_one w x evidence).0
  unfolding attest
  attest-first x ys h = rw (h, answer_of, attest) refl

aws_part-Others :
    (t : String) (o : Option AwsLambdaSettings)
    → ((s : _) → can_attest (aws_sts s) t ≡ false)
    → Others t (aws_part o)
aws_part-Others t none h = tt
aws_part-Others t (some s) h = elim (Bool-cases s.enabled) [
  | inl e ↦ rw e (h _, tt)
  | inr e ↦ rw e tt
]

cloudflare_part-Others :
    (t : String) (o : Option CloudflareWorkersSettings)
    → ((s : _) → can_attest (cloudflare_workers s) t ≡ false)
    → Others t (cloudflare_part o)
cloudflare_part-Others t none h = tt
cloudflare_part-Others t (some s) h = elim (Bool-cases s.enabled) [
  | inl e ↦ rw e (h _, tt)
  | inr e ↦ rw e tt
]

github_part-Others :
    (t : String) (o : Option GithubOidcSettings)
    → ((s : _) → can_attest (github_oidc s) t ≡ false)
    → Others t (github_part o)
github_part-Others t none h = tt
github_part-Others t (some s) h = elim (Bool-cases s.enabled) [
  | inl e ↦ rw e (h _, tt)
  | inr e ↦ rw e tt
]

-- Evidence of an enabled platform is handed to the attestor that the configuration describes, past
-- those of the other platforms.
enabled-attest :
    (a : AttestorsConfig) (w : World) (x : Attestor) (evidence : String)
    → IsEnabled a x
    → (attest w (build_attestor_registry a) (name x) evidence).0 ≡ (attest_one w x evidence).0
unfolding build_attestor_registry name can_attest
enabled-attest a w _ evidence (aws s has on) =
    rw (has, on) (attest-first w "aws_sts" evidence _ _ refl)
enabled-attest a w _ evidence (cloudflare s has on) =
    attest-skip w "cloudflare_workers" evidence (aws_part a.aws_lambda) _
      (aws_part-Others "cloudflare_workers" a.aws_lambda (λ _. refl))
    ∙ rw (has, on) (attest-first w "cloudflare_workers" evidence _ _ refl)
enabled-attest a w _ evidence (github s has on) =
    attest-skip w "github_oidc" evidence (aws_part a.aws_lambda) _
      (aws_part-Others "github_oidc" a.aws_lambda (λ _. refl))
    ∙ (attest-skip w "github_oidc" evidence (cloudflare_part a.cloudflare_workers) _
          (cloudflare_part-Others "github_oidc" a.cloudflare_workers (λ _. refl))
        ∙ rw (has, on) (attest-first w "github_oidc" evidence _ _ refl))
enabled-attest a w _ evidence (deno s has on) =
    attest-skip w "deno_oidc" evidence (aws_part a.aws_lambda) _
      (aws_part-Others "deno_oidc" a.aws_lambda (λ _. refl))
    ∙ (attest-skip w "deno_oidc" evidence (cloudflare_part a.cloudflare_workers) _
          (cloudflare_part-Others "deno_oidc" a.cloudflare_workers (λ _. refl))
        ∙ (attest-skip w "deno_oidc" evidence (github_part a.github_oidc) _
              (github_part-Others "deno_oidc" a.github_oidc (λ _. refl))
            ∙ rw (has, on) (attest-first w "deno_oidc" evidence _ _ refl)))

-- Evidence was accepted by an attestor that the configuration enables.
pub record IsAcceptedBy (a : AttestorsConfig) (w : World) (t evidence : String)
    (result : AttestationResult) : Type 0 where
  pub attestor : Attestor
  pub enabled : IsEnabled a attestor
  pub named : name attestor ≡ t
  pub accepted : (attest_one w attestor evidence).0 ≡ ok result

routed-IsAcceptedBy :
    (a : AttestorsConfig) (w : World) (t evidence : String) (result : AttestationResult)
    (answer : Result AttestError AttestationResult × List Attestor)
    → IsRouted w (build_attestor_registry a) t evidence answer
    → answer.0 ≡ ok result
    → IsAcceptedBy a w t evidence result
routed-IsAcceptedBy a w t evidence result answer (inl (others, refused)) h = absurd (ground arith)
routed-IsAcceptedBy a w t evidence result answer
      (inr (before, x, after, whole, others, named, answered)) h =
    record {
      attestor = x;
      enabled =
          All-middle (IsEnabled a) before after x
            (subst (All (IsEnabled a)) whole (registry-IsEnabled a));
      named = named;
      accepted =
          ap (λ (r : Result AttestError AttestationResult × List Attestor). r.0) (sym answered) ∙ h;
    }

-- With the registry that `server start` builds, evidence of an enabled platform gets the answer of
-- the attestor that the platform's section of the configuration describes; and evidence is accepted
-- only by such an attestor, so a platform whose section is absent or not enabled is never accepted.
pub build_attestor_registry-IsEnabled :
    (a : AttestorsConfig) (w : World) (evidence : String)
    → ((x : Attestor)
        → IsEnabled a x
        → (attest w (build_attestor_registry a) (name x) evidence).0 ≡ (attest_one w x evidence).0)
      × ((t : String) (result : AttestationResult)
          → (attest w (build_attestor_registry a) t evidence).0 ≡ ok result
          → IsAcceptedBy a w t evidence result)
build_attestor_registry-IsEnabled a w evidence = (
  λ x. enabled-attest a w x evidence,
  λ t result.
      routed-IsAcceptedBy a w t evidence result _
        (attest-IsRouted w (build_attestor_registry a) t evidence),
)
