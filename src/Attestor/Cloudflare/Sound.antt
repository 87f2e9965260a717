-- ===== src/Attestor/Cloudflare/Sound.antt =====
-- What `Attest` (cloudflare_workers.go) has checked when it returns a result.
use mathlib.Core.List.{Mem, mem-cons_self, mem-cons_of_mem}
use svidmint.Base.{
  String, ◌≡◌, ◌⊎◌, refl, sym, ◌∙◌, ap, false, not, Option, none, some, List, [], ◌∷◌, Result, ok,
  err, inl, inr, bind_ok, or_err_ok, guard_ok, Result-cases, arith, Bool-cases, Option-cases, ◌==◌,
  eq_iff,
}
use svidmint.Base.Int.{◌-ℤ◌, ◌<ℤ◌}
use svidmint.Base.Text.{join}
use svidmint.Base.Assoc.{lookup, lookup-insert}
use svidmint.Attestor.Types.{AttestationResult, AttestError}
use svidmint.Attestor.Calls.{es256, World, KeySet, Jwt, Payload, SamePayload}
use svidmint.Attestor.Jwks.{download_jwks}
use svidmint.Attestor.Tokens.{IsTokenOf, tested-IsTokenOf}
use svidmint.Attestor.Cloudflare.{
  Team, CachedJwks, Cloudflare, Opened, expected_issuer, match_team, if_fresh, jwks_cache_ttl,
  remember, fetch_jwks, is_expired, open_token, accept, with_keys, attest,
}

match_team-IsTeam :
    (teams : List Team) (issuer : String) (team : Team)
    → match_team teams issuer ≡ ok team
    → Mem team teams × (issuer ≡ expected_issuer team)
unfolding match_team
match_team-IsTeam [] issuer team h = absurd (cc)
match_team-IsTeam (t ∷ teams) issuer team h = elim (Bool-cases (issuer == expected_issuer t)) [
  | inl same ↦
      let found : t ≡ team = ground arith in
      (rw found mem-cons_self, rw found at ((eq_iff issuer (expected_issuer t)).0 same))
  | inr other ↦
      let (m, e) = match_team-IsTeam teams issuer team (rw (other, match_team) at h) in
      (mem-cons_of_mem t m, e)
]

-- Where keys for a URL come from: the cache of that URL, where they are less than five minutes
-- old; or a download, after which the cache of that URL holds them, with the time.
abbrev pub KeysOf : World → Cloudflare → Cloudflare → String → KeySet → Type 0
KeysOf w a a' url keys =
    ((cached : CachedJwks) × (lookup url a.key_cache ≡ some cached)
      × (cached.keys ≡ keys)
      × (w.now -ℤ cached.fetched_at <ℤ jwks_cache_ttl)
      × (a' ≡ a))
    ⊎ ((download_jwks w url ≡ ok keys)
        × (a'.teams ≡ a.teams)
        × (lookup url a'.key_cache ≡ some (record { keys = keys; fetched_at = w.now })))

remember_sound :
    (w : World) (a a' : Cloudflare) (url : String) (keys : KeySet) (r : Result AttestError KeySet)
    → remember w a url r ≡ (ok keys, a')
    → (r ≡ ok keys)
      × (a'.teams ≡ a.teams)
      × (lookup url a'.key_cache ≡ some (record { keys = keys; fetched_at = w.now }))
remember_sound w a a' url keys (err e) h = absurd (ground arith)
remember_sound w a a' url keys (ok found) h =
    let same_keys : found ≡ keys = ground arith in
    let same : remember w a url (ok keys) ≡ (ok keys, a') = rw same_keys at h in
    (
      ground arith,
      ap (λ (x : Result AttestError KeySet × Cloudflare). x.1.teams) (sym h),
      ap (λ (x : Result AttestError KeySet × Cloudflare). lookup url x.1.key_cache) (sym same)
          ∙ lookup-insert url url (record { keys = keys; fetched_at = w.now }) a.key_cache
          ∙ ground (arith, eq_iff url url),
    )

if_fresh_sound :
    (w : World) (o : Option CachedJwks) (keys : KeySet)
    → if_fresh w o ≡ some keys
    → (cached : CachedJwks) × (o ≡ some cached)
      × (cached.keys ≡ keys)
      × (w.now -ℤ cached.fetched_at <ℤ jwks_cache_ttl)
if_fresh_sound w none keys h = absurd (cc)
if_fresh_sound w (some cached) keys h = (cached, refl, ground arith, ground arith)

fetch_jwks-KeysOf :
    (w : World) (a a' : Cloudflare) (url : String) (keys : KeySet)
    → fetch_jwks w a url ≡ (ok keys, a')
    → KeysOf w a a' url keys
unfolding fetch_jwks
fetch_jwks-KeysOf w a a' url keys h = elim (Option-cases (if_fresh w (lookup url a.key_cache))) [
  | inr (kept, e) ↦
      let (cached, held, same, recent) =
        if_fresh_sound w (lookup url a.key_cache) keys (ground arith) in
      inl (cached, held, same, recent, ground arith)
  | inl stale ↦
      inr (remember_sound w a a' url keys (download_jwks w url) (rw (stale, fetch_jwks) at h))
]

-- A token that a configured team's keys verify, which has not expired and whose verified issuer is
-- that team's domain; the claims are the team and the token's.
pub record IsAccepted (w : World) (a a' : Cloudflare) (evidence : String) (team : Team)
    (result : AttestationResult) : Type 0 where
  pub configured : Mem team a.teams
  pub keys : KeySet
  pub source : KeysOf w a a' team.certs_url keys
  pub tok : Jwt
  pub carried : IsTokenOf w "access_jwt" (es256 ∷ []) evidence tok
  pub payload : Payload
  pub verified : w.verify_claims tok keys ≡ some payload
  pub issuer : payload.issuer ≡ expected_issuer team
  pub unexpired : is_expired w.now payload.expiry ≡ false
  pub claims :
      result.claims
      ≡ ("cf.team", team.name)
        ∷ ("cf.audience", join "," payload.audience)
        ∷ ("cf.email", payload.field "email")
        ∷ []
  pub expiry : result.expires_at ≡ payload.expiry

open_token_sound :
    (w : World) (a : Cloudflare) (evidence : String) (opened : Opened)
    → open_token w a evidence ≡ ok opened
    → IsTokenOf w "access_jwt" (es256 ∷ []) evidence opened.tok
      × (u : Payload) × (w.unsafe_claims opened.tok ≡ some u)
      × Mem opened.team a.teams
      × (u.issuer ≡ expected_issuer opened.team)
unfolding open_token
open_token_sound w a evidence opened h =
    or_err_ok (w.json_field "access_jwt" evidence) _ _ h λ access_jwt given h₁.
      guard_ok (not (access_jwt == "")) _ _ h₁ λ some_token h₂.
        or_err_ok (w.parse_signed access_jwt _) _ _ h₂ λ tok read_token h₃.
          or_err_ok (w.unsafe_claims tok) _ _ h₃ λ u read h₄.
            bind_ok (match_team a.teams u.issuer) _ h₄ λ team matched h₅.
              let (m, e) = match_team-IsTeam a.teams u.issuer team matched in
              let same_team : team ≡ opened.team = cc in
              let same_tok : tok ≡ opened.tok = cc in
              (
                tested-IsTokenOf w "access_jwt" (es256 ∷ []) evidence access_jwt opened.tok given
                    some_token (read_token ∙ ap some same_tok),
                u,
                rw same_tok at read,
                rw same_team at m,
                rw same_team at e,
              )

with_keys_sound :
    (w : World) (opened : Opened) (r : Result AttestError KeySet × Cloudflare) (a' : Cloudflare)
    (result : AttestationResult)
    → with_keys w opened r ≡ (ok result, a')
    → (keys : KeySet) × (r ≡ (ok keys, a')) × (accept w opened keys ≡ ok result)
with_keys_sound w opened (err e, a) a' result h = absurd (ground arith)
with_keys_sound w opened (ok keys, a) a' result h =
    (keys, cc, ap (λ (x : Result AttestError AttestationResult × Cloudflare). x.0) h)

-- An accepted Cloudflare token is the one in the evidence; it was verified with the keys of a
-- configured team, which are in the cache for less than five minutes or have just been downloaded
-- from the team's URL; its verified issuer is that team's domain, though the team was chosen by the
-- issuer before the verification (`SamePayload` says that both readings see one payload), and it
-- has not expired.
pub attest-IsAccepted_by_team :
    (w : World) (a a' : Cloudflare) (evidence : String) (result : AttestationResult)
    → SamePayload w
    → attest w a evidence ≡ (ok result, a')
    → (team : Team) × IsAccepted w a a' evidence team result
unfolding attest accept
attest-IsAccepted_by_team w a a' evidence result laws h =
    elim (Result-cases (open_token w a evidence)) [
      | inr (e, failed) ↦ absurd (ground arith)
      | inl (opened, is_open) ↦
          let (carried, u, read, configured, named) =
            open_token_sound w a evidence opened is_open in
          let (keys, fetched, taken) =
            with_keys_sound w opened (fetch_jwks w a opened.team.certs_url) a' result
              (rw (is_open, attest) at h) in
          or_err_ok (w.verify_claims opened.tok keys) _ _ taken λ payload verified h₁.
            guard_ok (not (is_expired w.now payload.expiry)) _ _ h₁ λ fresh h₂. (
              opened.team,
              record {
                configured = configured;
                keys = keys;
                source = fetch_jwks-KeysOf w a a' opened.team.certs_url keys fetched;
                tok = opened.tok;
                carried = carried;
                payload = payload;
                verified = verified;
                issuer =
                    ap (λ (x : Payload). x.issuer)
                      (sym (laws.same_payload opened.tok keys u payload read verified))
                    ∙ named;
                unexpired = ground arith;
                claims = cc;
                expiry = cc;
              },
            )
    ]
