-- ===== src/Attestor/Github/Cache.antt =====
-- The key cache of github_oidc.go: when keys come from it, and when it changes.
use svidmint.Base.{◌≡◌, ◌⊎◌, refl, some, Result, ok, err, inl, inr, arith, Option-cases}
use svidmint.Base.Int.{◌-ℤ◌, ◌<ℤ◌}
use svidmint.Attestor.Types.{AttestError}
use svidmint.Attestor.Calls.{World, KeySet}
use svidmint.Attestor.Jwks.{download_jwks}
use svidmint.Attestor.Github.{
  Github, endpoint, fresh_keys, jwks_cache_duration, remember, fetch_jwks,
}

-- Keys of the cache, less than an hour old.
pub record IsCached (w : World) (a : Github) (keys : KeySet) : Type 0 where
  pub held : a.cached_jwks ≡ some keys
  pub fresh : w.now -ℤ a.jwks_fetched <ℤ jwks_cache_duration

-- Keys that the endpoint gave just now.
pub record IsDownloaded (w : World) (a a' : Github) (keys : KeySet) : Type 0 where
  pub downloaded : download_jwks w (endpoint a.config) ≡ ok keys
  pub kept : a'.cached_jwks ≡ some keys
  pub dated : a'.jwks_fetched ≡ w.now
  pub same_config : a'.config ≡ a.config

fresh_keys-IsCached :
    (w : World) (a : Github) (keys : KeySet) → fresh_keys w a ≡ some keys → IsCached w a keys
unfolding fresh_keys
fresh_keys-IsCached w a keys h = ground arith

remember_sound :
    (w : World) (a a' : Github) (keys : KeySet) (r : Result AttestError KeySet)
    → download_jwks w (endpoint a.config) ≡ r
    → remember w a r ≡ (ok keys, a')
    → IsDownloaded w a a' keys
remember_sound w a a' keys (ok found) d h = record {
  downloaded = ground arith;
  kept = ground arith;
  dated = ground arith;
  same_config = ground arith;
}
remember_sound w a a' keys (err e) d h = absurd (ground arith)

remember_error :
    (w : World) (a a' : Github) (e : AttestError) (r : Result AttestError KeySet)
    → remember w a r ≡ (err e, a')
    → a' ≡ a
remember_error w a a' e (ok found) h = absurd (ground arith)
remember_error w a a' e (err e') h = ground arith

-- The keys that `fetchJWKS` returns are in the cache for less than an hour, and the attestor is
-- unchanged; or they have just been downloaded from the endpoint, and are cached with this time.
pub fetch_jwks_sound :
    (w : World) (a a' : Github) (keys : KeySet)
    → fetch_jwks w a ≡ (ok keys, a')
    → (IsCached w a keys × (a' ≡ a)) ⊎ IsDownloaded w a a' keys
unfolding fetch_jwks
fetch_jwks_sound w a a' keys h = elim (Option-cases (fresh_keys w a)) [
  | inr (cached, e) ↦ inl (fresh_keys-IsCached w a keys (ground arith), ground arith)
  | inl stale ↦ inr (
      remember_sound w a a' keys (download_jwks w (endpoint a.config)) refl
        (rw (stale, fetch_jwks) at h))
]

-- A failed download leaves the attestor, its cache included, as it was.
pub fetch_jwks_error :
    (w : World) (a a' : Github) (e : AttestError) → fetch_jwks w a ≡ (err e, a') → a' ≡ a
unfolding fetch_jwks
fetch_jwks_error w a a' e h = elim (Option-cases (fresh_keys w a)) [
  | inr (cached, found) ↦ absurd (ground arith)
  | inl stale ↦
      remember_error w a a' e (download_jwks w (endpoint a.config)) (rw (stale, fetch_jwks) at h)
]
