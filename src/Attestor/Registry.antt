-- ===== src/Attestor/Registry.antt =====
-- internal/attestor/registry.go, and the methods `CanAttest` and `Attest` of the interface
-- `Attestor` for each of its four implementations.
pub mod Routing
pub mod Settings
use svidmint.Base.{String, ◌==◌, Bool, List, [], ◌∷◌, Result, err, if◌then◌else◌}
use svidmint.Attestor.Types.{AttestationResult, AttestError, no_attestor}
use svidmint.Attestor.Calls.{World}
use svidmint.Attestor.AwsLambda
use svidmint.Attestor.AwsLambda.{AwsLambdaConfig}
use svidmint.Attestor.Github
use svidmint.Attestor.Github.{Github}
use svidmint.Attestor.Cloudflare
use svidmint.Attestor.Cloudflare.{Cloudflare}
use svidmint.Attestor.Deno
use svidmint.Attestor.Deno.{Deno}

pub data Attestor : Type 0 where
  aws_sts : AwsLambdaConfig → Attestor
  github_oidc : Github → Attestor
  cloudflare_workers : Cloudflare → Attestor
  deno_oidc : Deno → Attestor

-- `Name`
unfoldable pub name : Attestor → String
name (aws_sts _) = "aws_sts"
name (github_oidc _) = "github_oidc"
name (cloudflare_workers _) = "cloudflare_workers"
name (deno_oidc _) = "deno_oidc"

-- `CanAttest`
unfoldable pub can_attest : Attestor → String → Bool
can_attest (aws_sts _) evidence_type = evidence_type == "aws_sts"
can_attest (github_oidc _) evidence_type = evidence_type == "github_oidc"
can_attest (cloudflare_workers _) evidence_type = evidence_type == "cloudflare_workers"
can_attest (deno_oidc _) evidence_type = evidence_type == "deno_oidc"

abbrev pub keep :
    {X : Type 0}
    → (X → Attestor)
    → Result AttestError AttestationResult × X
    → Result AttestError AttestationResult × Attestor
keep f (r, x) = (r, f x)

-- `Attest` of the interface: the result, and the attestor with its cache of keys afterwards.
unfoldable pub attest_one :
    World → Attestor → String → Result AttestError AttestationResult × Attestor
attest_one w (aws_sts config) evidence = (AwsLambda.attest config w evidence, aws_sts config)
attest_one w (github_oidc a) evidence = keep github_oidc (Github.attest w a evidence)
attest_one w (cloudflare_workers a) evidence =
    keep cloudflare_workers (Cloudflare.attest w a evidence)
attest_one w (deno_oidc a) evidence = (Deno.attest a w evidence, deno_oidc a)

abbrev pub put_first :
    List Attestor
    → Result AttestError AttestationResult × Attestor
    → Result AttestError AttestationResult × List Attestor
put_first attestors (r, a) = (r, a ∷ attestors)

abbrev pub put_before :
    Attestor
    → Result AttestError AttestationResult × List Attestor
    → Result AttestError AttestationResult × List Attestor
put_before a (r, attestors) = (r, a ∷ attestors)

-- `Registry.Attest`
unfoldable pub attest :
    World → List Attestor → String → String → Result AttestError AttestationResult × List Attestor
attest w [] evidence_type evidence = (err no_attestor, [])
attest w (a ∷ attestors) evidence_type evidence =
    let later = attest w attestors evidence_type evidence in
    if can_attest a evidence_type
    then put_first attestors (attest_one w a evidence)
    else put_before a later
