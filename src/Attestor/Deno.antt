-- ===== src/Attestor/Deno.antt =====
-- internal/attestor/deno_deploy.go
pub mod Sound
use Prim.Native.String.{◌++◌}
use svidmint.Base.{
  String, ◌==◌, Bool, true, false, not, ◌||◌, Option, none, some, List, [], ◌∷◌, Result, ok, ◌>>=◌,
  ◌>>◌, guard, or_err, wrap_err, if◌then◌else◌, ◌*◌,
}
use svidmint.Base.Int.{pos, ltb_ℤ, ◌+ℤ◌}
use svidmint.Base.Assoc.{insert}
use svidmint.Ca.{Time, Duration, second}
use svidmint.Entry.{Claims}
use svidmint.Attestor.Types.{
  AttestationResult, AttestError, bad_evidence, missing_token, bad_jwt, bad_claims, bad_signature,
  expired, untrusted_issuer, jwks_failed,
}
use svidmint.Attestor.Calls.{World, Payload, es256, rs256}
use svidmint.Attestor.Jwks.{download_jwks}

pub record Deno : Type 0 where
  pub allowed_issuers : List String
  pub jwks_url_override : String

-- `NewDenoDeployAttestor`
unfoldable pub new_deno : Deno → Deno
new_deno config = elim config.allowed_issuers [
  | [] ↦ record config { allowed_issuers = "https://oidc.deno.com" ∷ [] }
  | _ ∷ _ ↦ config
]

-- `isAllowedIssuer`
unfoldable pub is_allowed_issuer : List String → String → Bool
is_allowed_issuer [] issuer = false
is_allowed_issuer (allowed ∷ more) issuer =
    let rest = is_allowed_issuer more issuer in if allowed == issuer then true else rest

abbrev pub jwks_url : Deno → String → String
jwks_url a issuer =
    if a.jwks_url_override == "" then issuer ++ "/.well-known/jwks.json" else a.jwks_url_override

abbrev pub is_expired : Time → Option Time → Bool
is_expired now none = false
is_expired now (some expiry) = ltb_ℤ expiry now

abbrev pub or_one_hour : Time → Option Time → Time
or_one_hour now none = now +ℤ pos (3600 * second)
or_one_hour now (some expiry) = expiry

abbrev pub add_claim : String → String → Claims → Claims
add_claim key value claims = if value == "" then claims else insert key value claims

abbrev pub claims_of : Payload → Claims
claims_of verified = add_claim "repository" (verified.field "repository") (
    add_claim "deno.project" (verified.field "deno.project")
      (("iss", verified.issuer) ∷ ("sub", verified.subject) ∷ []))

-- `Attest`
unfoldable pub attest : Deno → World → String → Result AttestError AttestationResult
attest a w evidence = do
  token ← or_err (w.json_field "token" evidence) bad_evidence
  guard (not (token == "")) missing_token
  parsed ← or_err (w.parse_signed token (es256 ∷ rs256 ∷ [])) bad_jwt
  unverified ← or_err (w.unsafe_claims parsed) bad_claims
  guard (is_allowed_issuer a.allowed_issuers unverified.issuer) untrusted_issuer
  jwks ← wrap_err jwks_failed (download_jwks w (jwks_url a unverified.issuer))
  verified ← or_err (w.verify_claims parsed jwks) bad_signature
  guard (not (is_expired w.now verified.expiry)) expired
  ok (record {
    claims = claims_of verified;
    expires_at = some (or_one_hour w.now verified.expiry);
    raw_identity = verified.subject;
  })
