-- ===== src/Attestor/Deno/Sound.antt =====
-- What `Attest` (deno_deploy.go) has checked when it returns a result.
use mathlib.Core.List.{Mem, mem-cons_self, mem-cons_of_mem}
use svidmint.Base.{
  String, ◌≡◌, refl, ◌∙◌, true, false, not, some, List, [], ◌∷◌, ok, inl, inr, is_empty, bind_ok,
  or_err_ok, guard_ok, wrap_err, wrap_err-eq-ok, arith, Bool-cases, ◌==◌, eq_iff,
}
use svidmint.Base.Assoc.{lookup, lookup-insert}
use svidmint.Attestor.Types.{AttestationResult}
use svidmint.Attestor.Calls.{es256, rs256, World, KeySet, Jwt, Payload, SamePayload}
use svidmint.Attestor.Jwks.{download_jwks}
use svidmint.Attestor.Tokens.{IsTokenOf, tested-IsTokenOf}
use svidmint.Attestor.Deno.{
  Deno, new_deno, is_allowed_issuer, jwks_url, is_expired, or_one_hour, add_claim, claims_of,
  attest,
}

is_allowed_issuer-mem :
    (issuers : List String) (issuer : String)
    → is_allowed_issuer issuers issuer ≡ true
    → Mem issuer issuers
unfolding is_allowed_issuer
is_allowed_issuer-mem [] issuer h = absurd (cc)
is_allowed_issuer-mem (x ∷ xs) issuer h = elim (Bool-cases (x == issuer)) [
  | inl same ↦ rw ((eq_iff x issuer).0 same) mem-cons_self
  | inr other ↦
      mem-cons_of_mem x (is_allowed_issuer-mem xs issuer (rw (other, is_allowed_issuer) at h))
]

-- A token verified with keys that its own, allowed, issuer publishes, and not expired; the result
-- carries the issuer and the subject.
pub record IsAccepted (a : Deno) (w : World) (evidence : String) (result : AttestationResult)
    : Type 0 where
  pub tok : Jwt
  pub carried : IsTokenOf w "token" (es256 ∷ rs256 ∷ []) evidence tok
  pub keys : KeySet
  pub payload : Payload
  pub allowed : Mem payload.issuer a.allowed_issuers
  pub downloaded : download_jwks w (jwks_url a payload.issuer) ≡ ok keys
  pub verified : w.verify_claims tok keys ≡ some payload
  pub unexpired : is_expired w.now payload.expiry ≡ false
  pub issuer_claim : lookup "iss" result.claims ≡ some payload.issuer
  pub subject_claim : lookup "sub" result.claims ≡ some payload.subject
  pub expiry : result.expires_at ≡ some (or_one_hour w.now payload.expiry)

lookup-add_claim :
    (k j v : String) (claims : List (String × String))
    → (k == j) ≡ false
    → lookup j (add_claim k v claims) ≡ lookup j claims
lookup-add_claim k j v claims other = elim (Bool-cases (v == "")) [
  | inl e ↦ rw e refl
  | inr e ↦ rw e (lookup-insert k j v claims ∙ rw other refl)
]

claims_of-issuer : (v : Payload) → lookup "iss" (claims_of v) ≡ some v.issuer
unfolding lookup
claims_of-issuer v =
    let base : List (String × String) = ("iss", v.issuer) ∷ ("sub", v.subject) ∷ [] in
    lookup-add_claim "repository" "iss" (v.field "repository")
      (add_claim "deno.project" (v.field "deno.project") base) refl
    ∙ lookup-add_claim "deno.project" "iss" (v.field "deno.project") base refl

claims_of-subject : (v : Payload) → lookup "sub" (claims_of v) ≡ some v.subject
unfolding lookup
claims_of-subject v =
    let base : List (String × String) = ("iss", v.issuer) ∷ ("sub", v.subject) ∷ [] in
    lookup-add_claim "repository" "sub" (v.field "repository")
      (add_claim "deno.project" (v.field "deno.project") base) refl
    ∙ lookup-add_claim "deno.project" "sub" (v.field "deno.project") base refl

-- The issuer decides where the keys are downloaded from before anything is verified; nevertheless
-- the verified issuer of an accepted token, which is the one in the evidence, is one of the allowed
-- issuers, its keys come from that issuer's URL (or the configured one), it has not expired, and
-- the claims "iss" and "sub" are its own (`SamePayload` says that both readings of a token see one
-- payload).
pub attest-IsAccepted_from_issuer :
    (a : Deno) (w : World) (evidence : String) (result : AttestationResult)
    → SamePayload w
    → attest a w evidence ≡ ok result
    → IsAccepted a w evidence result
unfolding attest
attest-IsAccepted_from_issuer a w evidence result laws h =
    or_err_ok (w.json_field "token" evidence) _ _ h λ token given h₁.
      guard_ok (not (token == "")) _ _ h₁ λ some_token h₂.
        or_err_ok (w.parse_signed token _) _ _ h₂ λ parsed read_token h₃.
          or_err_ok (w.unsafe_claims parsed) _ _ h₃ λ u read h₄.
            guard_ok (is_allowed_issuer a.allowed_issuers u.issuer) _ _ h₄ λ allowed h₅.
              bind_ok (wrap_err _ (download_jwks w (jwks_url a u.issuer))) _ h₅ λ jwks fetched h₆.
                or_err_ok (w.verify_claims parsed jwks) _ _ h₆ λ v verified h₇.
                  guard_ok (not (is_expired w.now v.expiry)) _ _ h₇ λ fresh h₈.
                    let same : u ≡ v = laws.same_payload parsed jwks u v read verified in
                    let downloaded : download_jwks w (jwks_url a u.issuer) ≡ ok jwks =
                      wrap_err-eq-ok _ (download_jwks w (jwks_url a u.issuer)) fetched in
                    let claims_are : claims_of v ≡ result.claims = cc in
                    record {
                      tok = parsed;
                      carried =
                          tested-IsTokenOf w "token" (es256 ∷ rs256 ∷ []) evidence token parsed
                            given some_token read_token;
                      keys = jwks;
                      payload = v;
                      allowed =
                          rw same at (is_allowed_issuer-mem a.allowed_issuers u.issuer allowed);
                      downloaded = rw same at downloaded;
                      verified = verified;
                      unexpired = ground arith;
                      issuer_claim = rw claims_are at (claims_of-issuer v);
                      subject_claim = rw claims_are at (claims_of-subject v);
                      expiry = cc;
                    }

with_default :
    (config : Deno) (issuers : List String)
    → config.allowed_issuers ≡ issuers
    → is_empty (new_deno config).allowed_issuers ≡ false
unfolding new_deno
with_default config [] e = rw e refl
with_default config (x ∷ xs) e = rw e refl

-- Whatever the configuration, the attestor that is built has an allowed issuer.
pub new_deno-not_empty : (config : Deno) → is_empty (new_deno config).allowed_issuers ≡ false
new_deno-not_empty config = with_default config config.allowed_issuers refl
