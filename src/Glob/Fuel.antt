-- ===== src/Glob/Fuel.antt =====
-- The fuel of one chunk of the glob matcher is enough: every round takes a character of the chunk.
use svidmint.Base.{
  ℕ, zero, suc, ◌≤◌, ◌<◌, ◌≡◌, ◌≢◌, refl, inl, inr, Bool, true, false, ◌&&◌, ◌||◌, Option, none,
  some, [], ◌∷◌, eqb, if◌then◌else◌, length, Result, ok, err, ◌>>=◌, arith, Bool-cases, bind_ok,
}
use svidmint.Glob.Class.{
  GlobError, bad_pattern, out_of_fuel, Codes, backslash, is_nil, get_esc, range_end, class_loop,
  is_negated,
}
use svidmint.Glob.Chunk.{match_chunk, first_code}
use svidmint.Glob.{fits}

abbrev pub HasFuel : {A : Type 0} → Result GlobError A → Type 0
HasFuel r = r ≢ err out_of_fuel

pub ok-HasFuel : {A : Type 0} (a : A) → HasFuel (ok a)
ok-HasFuel a h = cc

pub bad-HasFuel : {A : Type 0} → ◌≢◌ {A = Result GlobError A} (err bad_pattern) (err out_of_fuel)
bad-HasFuel h = cc

pub bind-HasFuel :
    {A B : Type 0} (m : Result GlobError A) (f : A → Result GlobError B)
    → HasFuel m
    → ((a : A) → m ≡ ok a → HasFuel (f a))
    → HasFuel (m >>= f)
bind-HasFuel (ok a) f h k e_out = k a refl e_out
bind-HasFuel (err e) f h k e_out = h (ground arith)

pub if-HasFuel :
    {A : Type 0} (b : Bool) (x y : Result GlobError A)
    → HasFuel x
    → HasFuel y
    → HasFuel (if b then x else y)
if-HasFuel true x y h k e_out = h e_out
if-HasFuel false x y h k e_out = k e_out

get_esc-HasFuel : (p : Codes) → HasFuel (get_esc p)
unfolding get_esc
get_esc-HasFuel [] = bad-HasFuel
get_esc-HasFuel (c ∷ []) = bad-HasFuel
get_esc-HasFuel (c ∷ d ∷ []) = if-HasFuel _ _ _ bad-HasFuel (ok-HasFuel _)
get_esc-HasFuel (c ∷ d ∷ e ∷ p) =
    if-HasFuel _ _ _ bad-HasFuel (if-HasFuel _ _ _ (ok-HasFuel _) (ok-HasFuel _))

get_esc-length : (p : Codes) (x : ℕ × Codes) → get_esc p ≡ ok x → length x.1 < length p
unfolding get_esc
get_esc-length [] x h = absurd (cc)
get_esc-length (c ∷ []) x h = absurd (cc)
get_esc-length (c ∷ d ∷ []) x h = ground arith
get_esc-length (c ∷ d ∷ e ∷ p) x h = ground arith

range_end-HasFuel : (lo : ℕ) (p : Codes) → HasFuel (range_end lo p)
unfolding range_end
range_end-HasFuel lo [] = ok-HasFuel _
range_end-HasFuel lo (c ∷ p) = if-HasFuel _ _ _ (get_esc-HasFuel p) (ok-HasFuel _)

range_end-length :
    (lo : ℕ) (p : Codes) (x : ℕ × Codes) → range_end lo p ≡ ok x → length x.1 ≤ length p
unfolding range_end
range_end-length lo [] x h = ground arith
range_end-length lo (c ∷ p) x h = ground (arith, get_esc-length p x)

class_loop-HasFuel :
    (f r : ℕ) (hit seen : Bool) (chunk : Codes)
    → length chunk < f
    → HasFuel (class_loop f r hit seen chunk)
unfolding class_loop
class_loop-HasFuel zero r hit seen chunk less = absurd (omega arith)
class_loop-HasFuel (suc f) r hit seen [] less = bad-HasFuel
class_loop-HasFuel (suc f) r hit seen (c ∷ p) less = elim (Bool-cases (eqb c b']' && seen)) [
  | inl e ↦ rw (e, class_loop) (ok-HasFuel _)
  | inr e ↦
      rw (e, class_loop)
        (bind-HasFuel (get_esc (c ∷ p)) _ (get_esc-HasFuel (c ∷ p)) λ first got.
          bind-HasFuel (range_end first.0 first.1) _ (range_end-HasFuel first.0 first.1)
            λ last ended.
              let one = get_esc-length (c ∷ p) first got in
              let two = range_end-length first.0 first.1 last ended in
              class_loop-HasFuel f r _ true last.1 (omega arith))
]

class_loop-length :
    (f r : ℕ) (hit seen : Bool) (chunk : Codes) (x : Bool × Codes)
    → class_loop f r hit seen chunk ≡ ok x
    → length x.1 ≤ length chunk
unfolding class_loop
class_loop-length zero r hit seen chunk x h = absurd (cc)
class_loop-length (suc f) r hit seen [] x h = absurd (cc)
class_loop-length (suc f) r hit seen (c ∷ p) x h = elim (Bool-cases (eqb c b']' && seen)) [
  | inl e ↦ at_end (rw (e, class_loop) at h)
  | inr e ↦ bind_ok (get_esc (c ∷ p)) _ (rw (e, class_loop) at h) λ first got h₁.
      bind_ok (range_end first.0 first.1) _ h₁ λ last ended h₂.
        let one = get_esc-length (c ∷ p) first got in
        let two = range_end-length first.0 first.1 last ended in
        let three = class_loop-length f r _ true last.1 x h₂ in omega arith
]
  where
    at_end :
        ◌≡◌ {A = Result GlobError (Bool × Codes)} (ok (hit, p)) (ok x) → length x.1 ≤ suc (length p)
    at_end h = ground arith

is_negated-length : (p : Codes) → length (is_negated p).1 ≤ length p
unfolding is_negated
is_negated-length [] = omega arith
is_negated-length (c ∷ p) = ground arith

quoted-HasFuel :
    {A : Type 0} (p : Codes) (f : ℕ → Codes → Result GlobError A)
    → ((d : ℕ) (q : Codes) → p ≡ d ∷ q → HasFuel (f d q))
    → HasFuel (elim p as (λ _. Result GlobError A) [ [] ↦ err bad_pattern | d ∷ q ↦ f d q ])
quoted-HasFuel [] f h = bad-HasFuel
quoted-HasFuel (d ∷ q) f h = h d q refl

pub found-HasFuel :
    (rest : Codes) (o : Option Codes) (later : Result GlobError (Option Codes))
    → HasFuel later
    → HasFuel (elim o as (λ _. Result GlobError (Option Codes)) [
      | none ↦ later
      | some t ↦ if fits rest t then ok (some t) else later
    ])
found-HasFuel rest none later h = h
found-HasFuel rest (some t) later h = if-HasFuel (fits rest t) _ _ (ok-HasFuel _) h

pub match_chunk-HasFuel :
    (f : ℕ) (failed : Bool) (chunk s : Codes)
    → length chunk < f
    → HasFuel (match_chunk f failed chunk s)
unfolding match_chunk
match_chunk-HasFuel zero failed chunk s less = absurd (omega arith)
match_chunk-HasFuel (suc f) failed [] s less = if-HasFuel _ _ _ (ok-HasFuel _) (ok-HasFuel _)
match_chunk-HasFuel (suc f) failed (c ∷ p) s less =
    let behind = is_negated-length p in
    if-HasFuel (eqb c b'[') _ _
      (bind-HasFuel
        (class_loop (suc (length p)) (if failed || is_nil s then 0 else first_code s) false false
          (is_negated p).1)
        _
        (class_loop-HasFuel (suc (length p)) (if failed || is_nil s then 0 else first_code s) false
          false (is_negated p).1 (omega arith))
        λ found got.
          let rest =
            class_loop-length (suc (length p)) (if failed || is_nil s then 0 else first_code s)
              false false (is_negated p).1 found got in
          match_chunk-HasFuel f _ found.1 _ (omega arith))
      (if-HasFuel (eqb c b'?') _ _ (match_chunk-HasFuel f _ p _ (omega arith)) (
        if-HasFuel (eqb c backslash) _ _
          (quoted-HasFuel p _ λ d q same. match_chunk-HasFuel f _ q _ (ground (arith, same)))
          (match_chunk-HasFuel f _ p _ (omega arith))))
