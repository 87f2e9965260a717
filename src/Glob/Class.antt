-- ===== src/Glob/Class.antt =====
-- Character classes of Go's `path.Match`: escapes, ranges and negation.
use svidmint.Base.{
  ℕ, zero, suc, Bool, true, false, ◌&&◌, ◌||◌, List, [], ◌∷◌, leb, eqb, if◌then◌else◌, Result, ok,
  err, ◌>>=◌,
}

-- `path.ErrBadPattern`; `out_of_fuel` belongs to the model only.
pub data GlobError : Type 0 where
  bad_pattern out_of_fuel : GlobError

abbrev pub Codes : Type 0
Codes = List ℕ

abbrev pub backslash : ℕ
backslash = 92

abbrev pub is_nil : Codes → Bool
is_nil [] = true
is_nil (c ∷ s) = false

-- `getEsc`: one possibly escaped character of a class; something must follow it.
unfoldable pub get_esc : Codes → Result GlobError (ℕ × Codes)
get_esc [] = err bad_pattern
get_esc (c ∷ []) = err bad_pattern
get_esc (c ∷ d ∷ []) =
    if eqb c b'-' || eqb c b']' || eqb c backslash then err bad_pattern else ok (c, d ∷ [])
get_esc (c ∷ d ∷ e ∷ p) =
    if eqb c b'-' || eqb c b']'
    then err bad_pattern
    else if eqb c backslash
    then ok (d, e ∷ p)
    else ok (c, d ∷ e ∷ p)

-- the `-hi` part of a range, if there is one
unfoldable pub range_end : ℕ → Codes → Result GlobError (ℕ × Codes)
unfolding get_esc
range_end lo [] = ok (lo, [])
range_end lo (c ∷ p) = if eqb c b'-' then get_esc p else ok (lo, c ∷ p)

-- The loop over the ranges of a class. `seen` says that a range has been read.
unfoldable pub class_loop : ℕ → ℕ → Bool → Bool → Codes → Result GlobError (Bool × Codes)
unfolding get_esc range_end
class_loop zero r hit seen chunk = err out_of_fuel
class_loop (suc f) r hit seen chunk = elim chunk [
  | [] ↦ err bad_pattern
  | c ∷ p ↦ elim (eqb c b']' && seen) [
    | true ↦ ok (hit, p)
    | false ↦ get_esc (c ∷ p) >>= λ first. range_end first.0 first.1 >>= λ last.
        class_loop f r (hit || leb first.0 r && leb r last.0) true last.1
  ]
]

unfoldable pub is_negated : Codes → Bool × Codes
is_negated [] = (false, [])
is_negated (c ∷ p) = if eqb c b'^' then (true, p) else (false, c ∷ p)
