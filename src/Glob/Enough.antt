-- ===== src/Glob/Enough.antt =====
-- The fuel of the glob matcher is enough: every loop takes at least one character of the pattern.
use svidmint.Base.{
  ℕ, zero, suc, ◌≤◌, ◌<◌, String, ◌≡◌, inl, inr, Bool, true, false, ◌&&◌, Option, none, some, [],
  ◌∷◌, eqb, if◌then◌else◌, length, Result, arith, Bool-cases,
}
use svidmint.Base.Text.{codes}
use svidmint.Glob.Class.{GlobError, Codes, is_nil}
use svidmint.Glob.Chunk.{skip_stars, scan, match_chunk}
use svidmint.Glob.{fits, star_search, check_rest, match_loop, path_match, after_chunk}
use svidmint.Glob.Fuel.{
  HasFuel, ok-HasFuel, bind-HasFuel, if-HasFuel, found-HasFuel, match_chunk-HasFuel,
}

star_search-HasFuel : (chunk rest name : Codes) → HasFuel (star_search chunk rest name)
unfolding star_search
star_search-HasFuel chunk rest [] = ok-HasFuel _
star_search-HasFuel chunk rest (c ∷ name) = if-HasFuel (eqb c b'/') _ _ (ok-HasFuel _) (
    bind-HasFuel (match_chunk (suc (length chunk)) false chunk name) _
      (match_chunk-HasFuel (suc (length chunk)) false chunk name (omega arith))
      λ t _. found-HasFuel rest t _ (star_search-HasFuel chunk rest name))

scan-length : (inrange : Bool) (p : Codes) → length (scan inrange p).1 ≤ length p
unfolding scan
scan-length inrange [] = omega arith
scan-length inrange (c ∷ []) = ground arith
scan-length inrange (c ∷ d ∷ p) = ground (
  arith,
  scan-length inrange p,
  scan-length true (d ∷ p),
  scan-length false (d ∷ p),
  scan-length inrange (d ∷ p),
)

skip_stars-length : (p : Codes) → length (skip_stars p).1 ≤ length p
unfolding skip_stars
skip_stars-length [] = omega arith
skip_stars-length (c ∷ p) = ground (arith, skip_stars-length p)

scan-shorter : (c : ℕ) (p : Codes) → eqb c b'*' ≡ false → length (scan false (c ∷ p)).1 ≤ length p
unfolding scan
scan-shorter c [] h = ground arith
scan-shorter c (d ∷ p) h =
    ground (arith, scan-length false p, scan-length true (d ∷ p), scan-length false (d ∷ p))

-- a round of the matcher takes a character of the pattern
round-length : (c : ℕ) (p : Codes) → length (scan false (skip_stars (c ∷ p)).1).1 ≤ length p
unfolding skip_stars
round-length c p = elim (Bool-cases (eqb c b'*')) [
  | inl e ↦
      let one = scan-length false (skip_stars p).1 in
      let two = skip_stars-length p in rw (e, skip_stars) (omega arith)
  | inr e ↦ rw (e, skip_stars) (scan-shorter c p e)
]

check_rest-HasFuel : (f : ℕ) (p : Codes) → length p < f → HasFuel (check_rest f p)
unfolding check_rest
check_rest-HasFuel zero p less = absurd (omega arith)
check_rest-HasFuel (suc f) [] less = ok-HasFuel _
check_rest-HasFuel (suc f) (c ∷ p) less =
    let next = scan false (skip_stars (c ∷ p)).1 in
    let taken = round-length c p in
    bind-HasFuel (match_chunk (suc (length next.0)) false next.0 []) _
      (match_chunk-HasFuel (suc (length next.0)) false next.0 [] (omega arith))
      λ _ _. check_rest-HasFuel f next.1 (omega arith)

after_chunk-HasFuel :
    (onward : Codes → Result GlobError Bool) (stop : Result GlobError Bool) (o : Option Codes)
    → ((t : Codes) → HasFuel (onward t))
    → HasFuel stop
    → HasFuel (after_chunk onward stop o)
after_chunk-HasFuel onward stop none h k = k
after_chunk-HasFuel onward stop (some t) h k = h t

tried-HasFuel :
    (rest : Codes) (onward : Codes → Result GlobError Bool) (missed : Result GlobError Bool)
    (o : Option Codes)
    → ((t : Codes) → HasFuel (onward t))
    → HasFuel missed
    → HasFuel (elim o as (λ _. Result GlobError Bool) [
      | none ↦ missed
      | some t ↦ if fits rest t then onward t else missed
    ])
tried-HasFuel rest onward missed none h k = k
tried-HasFuel rest onward missed (some t) h k = if-HasFuel (fits rest t) _ _ (h t) k

match_loop-HasFuel : (f : ℕ) (p name : Codes) → length p < f → HasFuel (match_loop f p name)
unfolding match_loop
match_loop-HasFuel zero p name less = absurd (omega arith)
match_loop-HasFuel (suc f) [] name less = ok-HasFuel _
match_loop-HasFuel (suc f) (c ∷ p) name less =
    let front = skip_stars (c ∷ p) in
    let next = scan false front.1 in
    let taken = round-length c p in
    let onward : (t : Codes) → HasFuel (match_loop f next.1 t) =
      λ t. match_loop-HasFuel f next.1 t (omega arith) in
    let stop : HasFuel (check_rest f next.1) = check_rest-HasFuel f next.1 (omega arith) in
    if-HasFuel (front.0 && is_nil next.0) _ _ (ok-HasFuel _) (
      bind-HasFuel (match_chunk (suc (length next.0)) false next.0 name) _
        (match_chunk-HasFuel (suc (length next.0)) false next.0 name (omega arith))
        λ t _. tried-HasFuel next.1 (match_loop f next.1) _ t onward (
          if-HasFuel front.0 _ _
            (bind-HasFuel (star_search next.0 next.1 name) _
              (star_search-HasFuel next.0 next.1 name)
              λ u _. after_chunk-HasFuel (match_loop f next.1) _ u onward stop)
            stop))

-- `path.Match` ends: the fuel that `path_match` has is enough for every pattern and every name.
pub path_match-HasFuel : (pattern name : String) → HasFuel (path_match pattern name)
unfolding path_match
path_match-HasFuel pattern name =
    match_loop-HasFuel (suc (length (codes pattern))) (codes pattern) (codes name) (omega arith)
