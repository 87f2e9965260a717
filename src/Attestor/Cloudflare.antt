-- ===== src/Attestor/Cloudflare.antt =====
-- internal/attestor/cloudflare_workers.go
pub mod Sound
use Prim.Native.String.{◌++◌}
use svidmint.Base.{
  String, ◌==◌, Bool, false, not, Option, none, some, List, [], ◌∷◌, Result, ok, err, ◌>>=◌, ◌>>◌,
  guard, or_err, wrap_err, if◌then◌else◌, ◌*◌,
}
use svidmint.Base.Int.{pos, ltb_ℤ, ◌-ℤ◌}
use svidmint.Base.Text.{join}
use svidmint.Base.Assoc.{lookup, insert}
use svidmint.Ca.{Time, Duration, second}
use svidmint.Attestor.Types.{
  AttestationResult, AttestError, bad_evidence, missing_token, bad_jwt, bad_claims, bad_signature,
  expired, no_team, jwks_failed,
}
use svidmint.Attestor.Calls.{World, KeySet, Jwt, Payload, es256}
use svidmint.Attestor.Jwks.{download_jwks}

pub record Team : Type 0 where
  pub name : String
  pub certs_url : String

pub record CachedJwks : Type 0 where
  pub keys : KeySet
  pub fetched_at : Time

-- The attestor: its teams, and its cache of keys by certs URL.
pub record Cloudflare : Type 0 where
  pub teams : List Team
  pub key_cache : List (String × CachedJwks)

abbrev pub new_cloudflare : List Team → Cloudflare
new_cloudflare teams = record { teams = teams; key_cache = [] }

abbrev pub jwks_cache_ttl : Duration
jwks_cache_ttl = pos (5 * 60 * second)

abbrev pub expected_issuer : Team → String
expected_issuer team = "https://" ++ (team.name ++ ".cloudflareaccess.com")

-- `matchTeam`
unfoldable pub match_team : List Team → String → Result AttestError Team
match_team [] issuer = err no_team
match_team (team ∷ teams) issuer =
    let rest = match_team teams issuer in if issuer == expected_issuer team then ok team else rest

abbrev pub if_fresh : World → Option CachedJwks → Option KeySet
if_fresh w none = none
if_fresh w (some cached) =
    if ltb_ℤ (w.now -ℤ cached.fetched_at) jwks_cache_ttl then some cached.keys else none

abbrev pub remember :
    World → Cloudflare → String → Result AttestError KeySet → Result AttestError KeySet × Cloudflare
remember w a certs_url (err e) = (err e, a)
remember w a certs_url (ok jwks) = (
  ok jwks,
  record a {
    key_cache = insert certs_url (record { keys = jwks; fetched_at = w.now }) a.key_cache;
  },
)

-- `fetchJWKS`
unfoldable pub fetch_jwks : World → Cloudflare → String → Result AttestError KeySet × Cloudflare
fetch_jwks w a certs_url = elim (if_fresh w (lookup certs_url a.key_cache)) [
  | some keys ↦ (ok keys, a)
  | none ↦ remember w a certs_url (download_jwks w certs_url)
]

-- `verified.Expiry != nil && verified.Expiry.Time().Before(now)`
abbrev pub is_expired : Time → Option Time → Bool
is_expired now none = false
is_expired now (some expiry) = ltb_ℤ expiry now

-- What `Attest` knows before it fetches keys.
pub record Opened : Type 0 where
  pub access_jwt : String
  pub tok : Jwt
  pub team : Team

-- `Attest` up to the keys
unfoldable pub open_token : World → Cloudflare → String → Result AttestError Opened
open_token w a evidence = do
  access_jwt ← or_err (w.json_field "access_jwt" evidence) bad_evidence
  guard (not (access_jwt == "")) missing_token
  tok ← or_err (w.parse_signed access_jwt (es256 ∷ [])) bad_jwt
  unverified ← or_err (w.unsafe_claims tok) bad_claims
  team ← match_team a.teams unverified.issuer
  ok (record { access_jwt = access_jwt; tok = tok; team = team })

-- `Attest` from the keys on
unfoldable pub accept : World → Opened → KeySet → Result AttestError AttestationResult
accept w opened jwks = do
  verified ← or_err (w.verify_claims opened.tok jwks) bad_signature
  guard (not (is_expired w.now verified.expiry)) expired
  ok (record {
    claims =
        ("cf.team", opened.team.name)
        ∷ ("cf.audience", join "," verified.audience)
        ∷ ("cf.email", verified.field "email")
        ∷ [];
    expires_at = verified.expiry;
    raw_identity = opened.access_jwt;
  })

abbrev pub with_keys :
    World
    → Opened
    → Result AttestError KeySet × Cloudflare
    → Result AttestError AttestationResult × Cloudflare
with_keys w opened (keys, a) = (wrap_err jwks_failed keys >>= accept w opened, a)

-- `Attest`: the result, and the attestor with its cache afterwards.
unfoldable pub attest :
    World → Cloudflare → String → Result AttestError AttestationResult × Cloudflare
attest w a evidence = elim (open_token w a evidence) [
  | err e ↦ (err e, a)
  | ok opened ↦ with_keys w opened (fetch_jwks w a opened.team.certs_url)
]
