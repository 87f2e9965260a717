-- ===== src/Attestor/AwsLambda/Endpoint.antt =====
-- Which URLs `validateEndpoint` (aws_lambda.go) lets through.
use Prim.Native.String.{◌++◌}
use text.Mathlib.TextLemmas.{nil-append, cons-append, cons≢nil, append_assoc}
use text.Mathlib.TextEquality.{Char-path}
use svidmint.Base.{
  String, code, ◌≡◌, ◌≢◌, ◌↔◌, ◌⊎◌, refl, ap, sym, ◌∙◌, true, inl, inr, arith, Bool-cases,
  Option-cases, ◌==◌, eq_iff,
}
use svidmint.Base.Text.{cons_path, strip_prefix, strip_prefix-append, strip_prefix_sound}
use svidmint.Attestor.AwsLambda.{
  AwsLambdaConfig, is_label_char, label_then_domain, region_then_domain, sts_endpoint_matches,
  validate_endpoint,
}

-- Lower-case letters, digits and dashes only.
abbrev pub IsLabel : String → Type 0
IsLabel String.[] = Unit
IsLabel (String.◌∷◌ c s) = (is_label_char (code c) ≡ true) × IsLabel s

abbrev pub domain : String
domain = ".amazonaws.com/"

-- An STS endpoint of AWS, global or of a region.
abbrev pub IsStsUrl : String → Type 0
IsStsUrl url =
    (url ≡ "https://sts.amazonaws.com/")
    ⊎ ((region : String) × IsLabel region
        × (region ≢ "")
        × (url ≡ "https://sts." ++ (region ++ ".amazonaws.com/")))

label_then_domain_sound :
    (s : String) → label_then_domain s ≡ true → (l : String) × IsLabel l × (s ≡ l ++ domain)
unfolding label_then_domain
label_then_domain_sound String.[] h = absurd (cc)
label_then_domain_sound (String.◌∷◌ c s) h = elim (Bool-cases (is_label_char (code c))) [
  | inl label ↦
      let (l, labels, e) = label_then_domain_sound s (rw label at h) in
      (String.◌∷◌ c l, (label, labels), rw cons-append (ap (String.◌∷◌ c) e))
  | inr other ↦ (String.[], tt, rw nil-append ((eq_iff _ _).0 (rw other at h)))
]

label_then_domain_complete : (l : String) → IsLabel l → label_then_domain (l ++ domain) ≡ true
unfolding label_then_domain
label_then_domain_complete String.[] h = refl
label_then_domain_complete (String.◌∷◌ c l) (label, labels) =
    rw cons-append (rw label (label_then_domain_complete l labels))

region_then_domain_sound :
    (s : String)
    → region_then_domain s ≡ true
    → (region : String) × IsLabel region × (region ≢ "") × (s ≡ String.◌∷◌ "." (region ++ domain))
unfolding region_then_domain
region_then_domain_sound (String.◌∷◌ dot (String.◌∷◌ c s)) h =
    let (l, labels, e) = label_then_domain_sound s (ground arith) in
    (
      String.◌∷◌ c l,
      (ground arith, labels),
      cons≢nil,
      cons_path dot "." _ _ (Char-path dot "." (ground arith))
          (ap (String.◌∷◌ c) e ∙ sym (cons-append c l domain)),
    )
region_then_domain_sound _ h = absurd (cc)

region_then_domain_complete :
    (region : String)
    → IsLabel region
    → region ≢ ""
    → region_then_domain (String.◌∷◌ "." (region ++ domain)) ≡ true
unfolding region_then_domain
region_then_domain_complete String.[] labels non_empty = absurd (non_empty refl)
region_then_domain_complete (String.◌∷◌ c region) (label, labels) non_empty =
    rw cons-append (rw (label, label_then_domain_complete region labels))

dot_after_host : (x : String) → "https://sts" ++ String.◌∷◌ "." x ≡ "https://sts." ++ x
dot_after_host x =
    ap (λ (r : String). "https://sts" ++ r)
      (sym (cons-append "." String.[] x ∙ ap (String.◌∷◌ ".") (nil-append x)))
    ∙ sym (append_assoc "https://sts" "." x)

sts_endpoint_global : sts_endpoint_matches "https://sts.amazonaws.com/" ≡ true
unfolding sts_endpoint_matches strip_prefix
sts_endpoint_global = refl

sts_endpoint_sound : (url : String) → sts_endpoint_matches url ≡ true → IsStsUrl url
unfolding sts_endpoint_matches
sts_endpoint_sound url h = elim (Option-cases (strip_prefix "https://sts" url)) [
  | inl other ↦ absurd (ground arith)
  | inr (rest, e) ↦
      let whole = strip_prefix_sound "https://sts" url rest e in
      elim (Bool-cases (rest == ".amazonaws.com/")) [
        | inl global ↦
            inl (whole ∙ ap (λ (r : String). "https://sts" ++ r) ((eq_iff rest domain).0 global))
        | inr elsewhere ↦
            let (region, labels, non_empty, e') = region_then_domain_sound rest (ground arith) in
            inr (
              region,
              labels,
              non_empty,
              whole
                  ∙ ap (λ (r : String). "https://sts" ++ r) e'
                  ∙ dot_after_host (region ++ domain),
            )
      ]
]

sts_endpoint_complete : (url : String) → IsStsUrl url → sts_endpoint_matches url ≡ true
unfolding sts_endpoint_matches
sts_endpoint_complete url (inl global) = rw global sts_endpoint_global
sts_endpoint_complete url (inr (region, labels, non_empty, e)) =
    rw (e ∙ sym (dot_after_host (region ++ domain))) (
      rw (strip_prefix-append "https://sts" _, sts_endpoint_matches)
        (ground (arith, region_then_domain_complete region labels non_empty)))

-- With no override, `validateEndpoint` accepts exactly the STS endpoints of AWS: no other host, no
-- other path, no port, user or query.
pub validate_endpoint_iff :
    (config : AwsLambdaConfig) (url : String)
    → config.sts_endpoint_override ≡ ""
    → (validate_endpoint config url ≡ true) ↔ IsStsUrl url
unfolding validate_endpoint
validate_endpoint_iff config url no_override =
    rw no_override (sts_endpoint_sound url, sts_endpoint_complete url)
