-- ===== src/Ca/Ttl/Bounds.antt =====
-- Bounds on the lifetimes that `computeTTL` of self_signed.go grants.
use Prim.Native.Nat.{min, ◌/◌}
use svidmint.Base.{ℕ, ◌<◌, ◌*◌, ◌^◌, ◌≡◌, Option, none, some, arith}
use svidmint.Base.Int.{ℤ, pos, ◌≤ℤ◌, ◌<ℤ◌, quot}
use svidmint.Ca.Types.{Time, second}
use svidmint.Ca.Ttl.{seconds, effective_ttl, compute_ttl}

-- With a default lifetime that is positive and within the maximum, every effective lifetime is
-- positive and within the maximum, whatever TTLs are asked for, those that overflow included.
pub effective_ttl_bounds :
    (default_ttl max_ttl now requested_ttl entry_ttl : ℤ) (platform_expiry : Option Time)
    → pos 0 <ℤ default_ttl
    → default_ttl ≤ℤ max_ttl
    → let d = effective_ttl default_ttl max_ttl now requested_ttl entry_ttl platform_expiry in
      (pos 0 <ℤ d) × (d ≤ℤ max_ttl)
unfolding effective_ttl
effective_ttl_bounds default_ttl max_ttl now requested_ttl entry_ttl none h k =
    (ground arith, ground arith)
effective_ttl_bounds default_ttl max_ttl now requested_ttl entry_ttl (some t) h k =
    (ground arith, ground arith)

-- No TTL product overflows below this many seconds.
abbrev pub InRange : ℕ → Type 0
InRange n = (0 < n) × (n * second < 2 ^ 63)

seconds-InRange : (n : ℕ) → InRange n → seconds (pos n) ≡ pos (n * second)
unfolding seconds
seconds-InRange n h = ground arith

-- As both signing methods call it, with no entry TTL and no platform expiry: a requested TTL that
-- is positive and fits is granted up to the maximum, which is positive, cut to whole seconds.
pub compute_ttl_requested :
    (default_ttl : ℤ) (m r : ℕ) (now : Time)
    → 0 < m
    → InRange r
    → compute_ttl default_ttl (pos m) now (pos r) (pos 0) none ≡ pos (min r (m / second))
unfolding compute_ttl
compute_ttl_requested default_ttl m r now hm hr = rw (seconds-InRange r hr) (ground arith)

-- A requested TTL whose product wraps to zero or below is granted the default lifetime, which
-- nothing compares with the maximum.
pub compute_ttl_overflow :
    (default_ttl max_ttl : ℤ) (r : ℕ) (now : Time)
    → 0 < r
    → pos 0 ≤ℤ max_ttl
    → seconds (pos r) ≤ℤ pos 0
    → compute_ttl default_ttl max_ttl now (pos r) (pos 0) none ≡ quot default_ttl second
unfolding compute_ttl
compute_ttl_overflow default_ttl max_ttl r now hr hm hw = ground arith
