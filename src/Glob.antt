-- ===== src/Glob.antt =====
-- Go's `path.Match`, which selectors and repository patterns go through. It belongs to Go's
-- standard library: its chunks, its escapes, and its errors for malformed patterns.
-- Texts are sequences of code points. Where a star could stop inside a multi-byte character, Go
-- works on bytes; for ASCII texts the two agree.
mod Class
mod Chunk
mod Fuel
pub mod Enough
pub use Class.{GlobError, bad_pattern, out_of_fuel, Codes, backslash, is_nil}
use Chunk.{has_no_slash, skip_stars, scan, match_chunk}
use svidmint.Base.{
  ℕ, zero, suc, String, ◌≡◌, refl, Bool, true, false, not, ◌&&◌, ◌||◌, Option, none, some, List, [],
  ◌∷◌, leb, eqb, if◌then◌else◌, length, Result, ok, err, ◌>>=◌,
}
use svidmint.Base.Text.{codes}

abbrev pub fits : Codes → Codes → Bool
fits rest t = is_nil t || not (is_nil rest)

-- The loop over `name[i+1:]` behind a star, which cannot skip a slash. `rest` is the pattern that
-- follows the chunk: where it is empty the name must be used up.
unfoldable pub star_search : Codes → Codes → Codes → Result GlobError (Option Codes)
star_search chunk rest [] = ok none
star_search chunk rest (c ∷ name) =
    let later = star_search chunk rest name in
    let here = match_chunk (suc (length chunk)) false chunk name >>= λ (t : Option Codes). elim t [
      | none ↦ later
      | some t ↦ if fits rest t then ok (some t) else later
    ] in
    if eqb c b'/' then ok none else here

-- Before a plain mismatch is reported the rest of the pattern is read for its errors.
unfoldable pub check_rest : ℕ → Codes → Result GlobError Bool
unfolding skip_stars scan match_chunk
check_rest zero pattern = err out_of_fuel
check_rest (suc f) [] = ok false
check_rest (suc f) (c ∷ p) =
    let next = scan false (skip_stars (c ∷ p)).1 in
    match_chunk (suc (length next.0)) false next.0 [] >>= λ (_ : Option Codes). check_rest f next.1

abbrev after_chunk :
    (Codes → Result GlobError Bool) → Result GlobError Bool → Option Codes → Result GlobError Bool
after_chunk onward stop none = stop
after_chunk onward stop (some t) = onward t

unfoldable pub match_loop : ℕ → Codes → Codes → Result GlobError Bool
unfolding skip_stars scan match_chunk star_search check_rest has_no_slash
match_loop zero pattern name = err out_of_fuel
match_loop (suc f) [] name = ok (is_nil name)
match_loop (suc f) (c ∷ p) name =
    let front = skip_stars (c ∷ p) in
    let next = scan false front.1 in
    let stop = check_rest f next.1 in
    let skipping = star_search next.0 next.1 name >>= λ (t : Option Codes).
    after_chunk (match_loop f next.1) stop t in
    let missed = if front.0 then skipping else stop in
    let tried = match_chunk (suc (length next.0)) false next.0 name >>= λ (t : Option Codes).
    elim t [ none ↦ missed | some t ↦ if fits next.1 t then match_loop f next.1 t else missed ] in
    if front.0 && is_nil next.0 then ok (has_no_slash name) else tried

-- `path.Match(pattern, name)`
unfoldable pub path_match : String → String → Result GlobError Bool
unfolding match_loop
path_match pattern name = match_loop (suc (length (codes pattern))) (codes pattern) (codes name)

test_literal : path_match "abc" "abc" ≡ ok true
unfolding path_match
test_literal = refl

test_star : path_match "myorg/*" "myorg/repo" ≡ ok true
unfolding path_match
test_star = refl

test_slash : path_match "myorg/*" "myorg/a/b" ≡ ok false
unfolding path_match
test_slash = refl

test_class : path_match "a[^b-d]*z?" "aexyzz" ≡ ok true
unfolding path_match
test_class = refl

test_backtrack : path_match "*ab*c" "xaabcdc" ≡ ok true
unfolding path_match
test_backtrack = refl

test_bad : path_match "x[a" "yz" ≡ err bad_pattern
unfolding path_match
test_bad = refl

test_bad2 : path_match "a*[]a]" "zz" ≡ err bad_pattern
unfolding path_match
test_bad2 = refl
