-- ===== src/Ca/Ttl.antt =====
-- `computeTTL` of self_signed.go. Durations are `int64` nanoseconds: a product that does not fit
-- wraps. `int(d.Seconds())` is division towards zero, which Go's float gives exactly for whole
-- seconds and for durations below 2^22 seconds.
pub mod Bounds
use svidmint.Base.{ℕ, Bool, Option, none, some, if◌then◌else◌, ◌^◌, ◌-◌}
use svidmint.Base.Int.{ℤ, pos, negsuc, ltb_ℤ, leb_ℤ, scale, quot, wrap64, ◌-ℤ◌}
use svidmint.Ca.Types.{Time, Duration, second}

-- `time.Duration(n) * time.Second`
unfoldable pub seconds : ℤ → Duration
unfolding scale wrap64
seconds n = wrap64 (scale second n)

-- `time.Until`, which saturates at the largest and the smallest duration
unfoldable pub until : Time → Time → Duration
until now t =
    let d = t -ℤ now in
    if ltb_ℤ (pos (2 ^ 63 - 1)) d
    then pos (2 ^ 63 - 1)
    else if ltb_ℤ d (negsuc (2 ^ 63 - 1))
    then negsuc (2 ^ 63 - 1)
    else d

-- The five steps of `computeTTL`, in its order.
abbrev pub requested : Duration → ℤ → Duration
requested default_ttl requested_ttl =
    if ltb_ℤ (pos 0) requested_ttl then seconds requested_ttl else default_ttl

abbrev pub smaller : Duration → Duration → Duration
smaller d effective = if ltb_ℤ d effective then d else effective

abbrev pub cap_entry : ℤ → Duration → Duration
cap_entry entry_ttl effective =
    if ltb_ℤ (pos 0) entry_ttl then smaller (seconds entry_ttl) effective else effective

abbrev pub cap_platform : Time → Option Time → Duration → Duration
cap_platform now none effective = effective
cap_platform now (some expiry) effective =
    if ltb_ℤ (pos 0) (until now expiry) then smaller (until now expiry) effective else effective

abbrev pub or_default : Duration → Duration → Duration
or_default default_ttl effective = if leb_ℤ effective (pos 0) then default_ttl else effective

-- The effective duration, before it is turned into seconds; `none` is the zero time.
unfoldable pub effective_ttl : Duration → Duration → Time → ℤ → ℤ → Option Time → Duration
effective_ttl default_ttl max_ttl now requested_ttl entry_ttl platform_expiry =
    or_default default_ttl (
      smaller max_ttl (
        cap_platform now platform_expiry
          (cap_entry entry_ttl (requested default_ttl requested_ttl))))

-- `computeTTL`
unfoldable pub compute_ttl : Duration → Duration → Time → ℤ → ℤ → Option Time → ℤ
unfolding effective_ttl quot
compute_ttl default_ttl max_ttl now requested_ttl entry_ttl platform_expiry =
    quot (effective_ttl default_ttl max_ttl now requested_ttl entry_ttl platform_expiry) second
