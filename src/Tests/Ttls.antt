-- ===== src/Tests/Ttls.antt =====
-- `computeTTL` (internal/ca/self_signed.go) at concrete inputs.
use svidmint.Base.{◌≡◌, none, arith, ◌*◌, ◌/◌}
use Prim.Native.Nat.{min}
use svidmint.Base.Int.{pos, quot, scale, wrap64, ◌≤ℤ◌, ◌<ℤ◌}
use svidmint.Ca.{second}
use svidmint.Ca.Ttl.{effective_ttl, compute_ttl, seconds}
use svidmint.Ca.Ttl.Bounds.{effective_ttl_bounds, compute_ttl_requested, compute_ttl_overflow}
use svidmint.Tests.Toy.{noon}

effective_ttl_bounds_example :
    (pos 0
      <ℤ effective_ttl (pos (3600 * second)) (pos (7200 * second)) noon (pos 9000) (pos 0) none)
    × (effective_ttl (pos (3600 * second)) (pos (7200 * second)) noon (pos 9000) (pos 0) none
        ≤ℤ pos (7200 * second))
effective_ttl_bounds_example =
    effective_ttl_bounds (pos (3600 * second)) (pos (7200 * second)) noon (pos 9000) (pos 0) none
      (omega arith) (omega arith)

compute_ttl_requested_example :
    compute_ttl (pos (3600 * second)) (pos (7200 * second)) noon (pos 9000) (pos 0) none
    ≡ pos (min 9000 (7200 * second / second))
compute_ttl_requested_example =
    compute_ttl_requested (pos (3600 * second)) (7200 * second) 9000 noon (omega arith)
      (omega arith, omega arith)

wraps : seconds (pos 10_000_000_000) ≤ℤ pos 0
unfolding seconds scale wrap64
wraps = omega arith

compute_ttl_overflow_example :
    compute_ttl (pos (3600 * second)) (pos (60 * second)) noon (pos 10_000_000_000) (pos 0) none
    ≡ quot (pos (3600 * second)) second
compute_ttl_overflow_example =
    compute_ttl_overflow (pos (3600 * second)) (pos (60 * second)) 10_000_000_000 noon (omega arith)
      (omega arith) wraps
