-- ===== src/Glob/Chunk.antt =====
-- Chunks of a pattern in Go's `path.Match`: how they are cut at stars, and how one is matched.
use svidmint.Base.{
  ℕ, zero, suc, Bool, true, false, not, ◌&&◌, ◌||◌, Option, none, some, [], ◌∷◌, eqb, if◌then◌else◌,
  length, Result, ok, err, ◌>>=◌,
}
use svidmint.Glob.Class.{
  GlobError, bad_pattern, out_of_fuel, Codes, backslash, is_nil, class_loop, is_negated,
}

-- `strings.IndexByte(name, '/') < 0`
unfoldable pub has_no_slash : Codes → Bool
has_no_slash [] = true
has_no_slash (c ∷ s) = let rest = has_no_slash s in if eqb c b'/' then false else rest

-- the stars at the front: whether there is one, and what follows them
unfoldable pub skip_stars : Codes → Bool × Codes
skip_stars [] = (false, [])
skip_stars (c ∷ p) =
    let rest = skip_stars p in if eqb c b'*' then (true, rest.1) else (false, c ∷ p)

abbrev on_chunk : ℕ → Codes × Codes → Codes × Codes
on_chunk c (chunk, rest) = (c ∷ chunk, rest)

-- The text up to the next star outside brackets; the flag is `inrange`.
unfoldable pub scan : Bool → Codes → Codes × Codes
scan inrange [] = ([], [])
scan inrange (c ∷ []) = if eqb c b'*' && not inrange then ([], c ∷ []) else (c ∷ [], [])
scan inrange (c ∷ d ∷ p) =
    let escaped = on_chunk c (on_chunk d (scan inrange p)) in
    let opened = on_chunk c (scan true (d ∷ p)) in
    let closed = on_chunk c (scan false (d ∷ p)) in
    let plain = on_chunk c (scan inrange (d ∷ p)) in
    if eqb c backslash
    then escaped
    else if eqb c b'['
    then opened
    else if eqb c b']'
    then closed
    else if eqb c b'*' && not inrange
    then ([], c ∷ d ∷ p)
    else plain

abbrev pub first_code : Codes → ℕ
first_code [] = 0
first_code (c ∷ s) = c

abbrev pub rest_codes : Codes → Codes
rest_codes [] = []
rest_codes (c ∷ s) = s

-- `matchChunk`: what is left of `s`, or `none` on a mismatch. After a mismatch (`failed`) the rest
-- of the chunk is read for its errors only.
unfoldable pub match_chunk : ℕ → Bool → Codes → Codes → Result GlobError (Option Codes)
unfolding class_loop is_negated
match_chunk zero failed chunk s = err out_of_fuel
match_chunk (suc f) failed [] s = if failed then ok none else ok (some s)
match_chunk (suc f) failed (c ∷ p) s =
    let failed' = failed || is_nil s in
    let class =
      class_loop (suc (length p)) (if failed' then 0 else first_code s) false false (is_negated p).1
      >>= λ (found : Bool × Codes).
          match_chunk f (failed' || (if found.0 then (is_negated p).0 else not (is_negated p).0))
            found.1 (if failed' then s else rest_codes s) in
    let any =
      match_chunk f (failed' || eqb (first_code s) b'/') p (if failed' then s else rest_codes s) in
    let quoted : Result GlobError (Option Codes) = elim p [
      | [] ↦ err bad_pattern
      | d ∷ q ↦ match_chunk f (failed' || not (eqb d (first_code s))) q (rest_codes s)
    ] in
    let plain = match_chunk f (failed' || not (eqb c (first_code s))) p (rest_codes s) in
    if eqb c b'['
    then class
    else if eqb c b'?'
    then any
    else if eqb c backslash
    then quoted
    else plain
