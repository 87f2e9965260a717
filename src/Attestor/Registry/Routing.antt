-- ===== src/Attestor/Registry/Routing.antt =====
-- Which attestor `Registry.Attest` (registry.go) asks.
use svidmint.Base.{
  String, ◌≡◌, ap, false, List, [], ◌∷◌, ◌++◌, refl, ◌≢◌, ◌⊎◌, Result, err, inl, inr, All, arith,
  Bool-cases, ◌==◌, eq_iff,
}
use svidmint.Attestor.Types.{AttestationResult, AttestError, no_attestor}
use svidmint.Attestor.Calls.{World}
use svidmint.Attestor.Registry.{Attestor, name, can_attest, attest_one, put_before, attest}

can_attest-name : (a : Attestor) (t : String) → can_attest a t ≡ (t == name a)
unfolding can_attest name
can_attest-name (Attestor.aws_sts _) t = refl
can_attest-name (Attestor.github_oidc _) t = refl
can_attest-name (Attestor.cloudflare_workers _) t = refl
can_attest-name (Attestor.deno_oidc _) t = refl

cannot_attest :
    (a : Attestor) (evidence_type : String)
    → can_attest a evidence_type ≡ false
    → name a ≢ evidence_type
cannot_attest a evidence_type h e =
    ground (arith, can_attest-name a evidence_type, eq_iff evidence_type (name a))

-- The answer is that of the first attestor of the evidence's name, and its state alone changes; or
-- no attestor has that name, the answer is an error and nothing changes.
abbrev pub IsRouted :
    World
    → List Attestor
    → String
    → String
    → Result AttestError AttestationResult × List Attestor
    → Type 0
IsRouted w attestors evidence_type evidence answer =
    (All (λ a. name a ≢ evidence_type) attestors × (answer ≡ (err no_attestor, attestors)))
    ⊎ ((before : List Attestor) × (a : Attestor) × (after : List Attestor) × (attestors
          ≡ before ++ a ∷ after)
        × All (λ b. name b ≢ evidence_type) before
        × (name a ≡ evidence_type)
        × (answer ≡ ((attest_one w a evidence).0, before ++ (attest_one w a evidence).1 ∷ after)))

put_before-IsRouted :
    (w : World) (a : Attestor) (attestors : List Attestor) (evidence_type evidence : String)
    (later : Result AttestError AttestationResult × List Attestor)
    → name a ≢ evidence_type
    → IsRouted w attestors evidence_type evidence later
    → IsRouted w (a ∷ attestors) evidence_type evidence (put_before a later)
put_before-IsRouted w a attestors evidence_type evidence later other (inl (all_others, e)) =
    inl ((other, all_others), ap (put_before a) e)
put_before-IsRouted w a attestors evidence_type evidence later other
      (inr (before, b, after, e, others, named, answered)) =
    inr
      (a ∷ before, b, after, ap (λ l. a ∷ l) e, (other, others), named, ap (put_before a) answered)

-- Evidence is handed to the first attestor of the list whose name is the evidence's type, and to no
-- other: the answer is that attestor's, only its cache changes, and where no attestor has the name
-- the answer is an error.
pub attest-IsRouted :
    (w : World) (attestors : List Attestor) (evidence_type evidence : String)
    → IsRouted w attestors evidence_type evidence (attest w attestors evidence_type evidence)
unfolding attest
attest-IsRouted w [] evidence_type evidence = inl (tt, refl)
attest-IsRouted w (a ∷ attestors) evidence_type evidence =
    elim (Bool-cases (can_attest a evidence_type)) [
      | inl can ↦ inr (
        [],
        a,
        attestors,
        refl,
        tt,
        ground (arith, can_attest-name a evidence_type, eq_iff evidence_type (name a)),
        rw can refl,
      )
      | inr cannot ↦ rw cannot (
          put_before-IsRouted w a attestors evidence_type evidence _
            (cannot_attest a evidence_type cannot)
            (attest-IsRouted w attestors evidence_type evidence))
    ]
