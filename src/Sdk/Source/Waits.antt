-- ===== src/Sdk/Source/Waits.antt =====
-- How long `refreshLoop` of x509source.go waits.
use mathlib.Core.Path.{subst}
use svidmint.Base.{◌≡◌, some, arith, Bool-cases, inl, inr, false, List, [], ◌∷◌, none, Option, refl}
use svidmint.Base.Int.{pos, quot, ◌<ℤ◌, ◌≤ℤ◌, ◌+ℤ◌, ◌-ℤ◌}
use svidmint.Ca.{Time, Duration, Certificate}
use svidmint.Ca.Ttl.{until}
use svidmint.Sdk.Types.{Svid}
use svidmint.Sdk.Source.{X509Source, next_wait, wait_for, first_wait, svid_wait}

-- A wait is longer than zero. While the certificate has two nanoseconds left, it is over by the
-- middle of what is left, so a refresh begins before the certificate expires.
pub record IsInTime (now : Time) (cert : Certificate) (d : Duration) : Type 0 where
  pub positive : pos 0 <ℤ d
  pub half :
      pos 2 ≤ℤ (cert.template.not_after -ℤ now) → (d +ℤ d) ≤ℤ (cert.template.not_after -ℤ now)

wait_for-IsInTime : (now : Time) (cert : Certificate) → IsInTime now cert (wait_for now cert)
unfolding until quot ◌+ℤ◌ ◌-ℤ◌
wait_for-IsInTime now cert = record { positive = ground arith; half = ground arith }

-- What the source holds when the loop waits.
pub record IsWait (now : Time) (s : X509Source) (d : Duration) : Type 0 where
  pub is_open : s.closed ≡ false
  pub svid : Svid
  pub has : s.svid ≡ some svid
  pub leaf : Certificate
  pub rest : List Certificate
  pub chain : svid.certificates ≡ leaf ∷ rest
  pub in_time : IsInTime now leaf d

first_wait-IsInTime :
    (now : Time) (certs : List Certificate) (d : Duration)
    → first_wait now certs ≡ some d
    → (leaf : Certificate) × (rest : List Certificate) × (certs ≡ leaf ∷ rest) × IsInTime now leaf d
first_wait-IsInTime now [] d h = absurd (cc)
first_wait-IsInTime now (cert ∷ certs) d h =
    let same : wait_for now cert ≡ d = ground arith in
    (cert, certs, refl, subst (IsInTime now cert) same (wait_for-IsInTime now cert))

svid_wait-IsWait :
    (now : Time) (s : X509Source) (o : Option Svid) (d : Duration)
    → s.closed ≡ false
    → s.svid ≡ o
    → svid_wait now o ≡ some d
    → IsWait now s d
svid_wait-IsWait now s none d is_open has h = absurd (cc)
svid_wait-IsWait now s (some svid) d is_open has h =
    let (leaf, rest, chain, in_time) = first_wait-IsInTime now svid.certificates d h in
    record {
      is_open = is_open;
      svid = svid;
      has = has;
      leaf = leaf;
      rest = rest;
      chain = chain;
      in_time = in_time;
    }

-- The loop waits only on an open source, for the leaf certificate of the SVID that it holds. Every
-- wait is longer than zero, so the loop never spins; and while the leaf has at least two
-- nanoseconds left, the wait is at most half of what is left.
pub next_wait-IsWait :
    (now : Time) (s : X509Source) (d : Duration) → next_wait now s ≡ some d → IsWait now s d
unfolding next_wait
next_wait-IsWait now s d h = elim (Bool-cases s.closed) [
  | inl e ↦ absurd (ground arith)
  | inr e ↦ svid_wait-IsWait now s s.svid d e refl (rw e at h)
]
