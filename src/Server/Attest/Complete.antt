-- ===== src/Server/Attest/Complete.antt =====
-- The requests whose fields `handleAttest` (attest.go) accepts.
use svidmint.Base.{
  String, ◌≡◌, ◌≢◌, ◌⊎◌, refl, false, Option, none, some, List, [], ◌∷◌, inl, inr, ◌==◌, eq_iff,
  Bool-cases, arith, is_empty,
}
use svidmint.Attestor.{AttestRequest}
use svidmint.Server.Attest.{refusal}

-- The three texts are given, and an SVID of a known type is asked for, with an audience if it is a
-- JWT.
pub record IsComplete (req : AttestRequest) : Type 0 where
  pub evidence_type : req.evidence_type ≢ ""
  pub evidence : req.evidence ≢ ""
  pub svid_type : (req.svid_type ≡ "x509") ⊎ ((req.svid_type ≡ "jwt") × (req.audience ≢ []))

kind_of :
    (req : AttestRequest)
    → refusal req ≡ none
    → (req.svid_type ≡ "x509") ⊎ ((req.svid_type ≡ "jwt") × (req.audience ≢ []))
unfolding refusal
kind_of req h = elim (Bool-cases (req.svid_type == "x509")) [
  | inl x509 ↦ inl ((eq_iff _ _).0 x509)
  | inr other ↦ elim (Bool-cases (req.svid_type == "jwt")) [
    | inl jwt ↦ inr ((eq_iff _ _).0 jwt, λ e. ground arith)
    | inr neither ↦ absurd (ground arith)
  ]
]

pub refusal-IsComplete : (req : AttestRequest) → refusal req ≡ none → IsComplete req
unfolding refusal
refusal-IsComplete req h = record {
  evidence_type = λ e. ground (arith, eq_iff req.evidence_type "");
  evidence = λ e. ground (arith, eq_iff req.evidence "");
  svid_type = kind_of req h;
}

different : (a b : String) → a ≢ b → (a == b) ≡ false
different a b h = elim (Bool-cases (a == b)) [ inl e ↦ absurd (h ((eq_iff a b).0 e)) | inr e ↦ e ]

not_empty : (xs : List String) → xs ≢ [] → is_empty xs ≡ false
not_empty [] h = absurd (h refl)
not_empty (x ∷ xs) h = refl

never_some : {P : Type 0} {message : String} → ◌≡◌ {A = Option String} none (some message) → P
never_some h = absurd (cc)

pub IsComplete-refusal :
    (req : AttestRequest) {message : String} → refusal req ≡ some message → IsComplete req → ⊥
unfolding refusal
IsComplete-refusal req h complete =
    let some_type = different req.evidence_type "" complete.evidence_type in
    let some_evidence = different req.evidence "" complete.evidence in
    elim complete.svid_type [
      | inl x509 ↦ never_some (rw (refusal, some_type, some_evidence, x509) at h)
      | inr (jwt, audience) ↦
          let some_audience = not_empty req.audience audience in
          never_some (rw (refusal, some_type, some_evidence, jwt, some_audience) at h)
    ]
