-- ===== src/Base/Assoc.antt =====
-- Go's `map[string]V`: a list of keys and values. `insert` is `m[k] = v`, `erase` is `delete(m,
-- k)`.
use Prim.Native.String.{String}
use mathlib.Core.Path.{◌≡◌, refl}
use mathlib.Core.Logic.{◌≢◌, inl, inr}
use mathlib.Core.Option.{Option, none, some}
use mathlib.Core.List.{List, [], ◌∷◌}
use native.Mathlib.Omega.{arith}
use text.Mathlib.Text.{◌==◌}
use text.Mathlib.TextEquality.{eq_iff}
use svidmint.Base.Tests.{if◌then◌else◌, Bool-cases}
use svidmint.Base.Lists.{All}

module _ {ℓ} {V : Type ℓ} where
  unfoldable pub lookup : String → List (String × V) → Option V
  lookup key [] = none
  lookup key (pair ∷ pairs) = if pair.0 == key then some pair.1 else lookup key pairs

  unfoldable pub insert : String → V → List (String × V) → List (String × V)
  insert key value [] = (key, value) ∷ []
  insert key value (pair ∷ pairs) =
      if pair.0 == key then (key, value) ∷ pairs else pair ∷ insert key value pairs

  unfoldable pub erase : String → List (String × V) → List (String × V)
  erase key [] = []
  erase key (pair ∷ pairs) =
      let rest = erase key pairs in if pair.0 == key then rest else pair ∷ rest

  pub lookup-insert :
      (key asked : String) (value : V) (pairs : List (String × V))
      → lookup asked (insert key value pairs)
        ≡ (if key == asked then some value else lookup asked pairs)
  unfolding lookup insert
  lookup-insert key asked value [] = refl
  lookup-insert key asked value ((i, w) ∷ pairs) =
      ground
        (arith, eq_iff i asked, eq_iff key asked, eq_iff i key, lookup-insert key asked value pairs)

  pub lookup-erase :
      (k j : String) (m : List (String × V))
      → lookup j (erase k m) ≡ (if k == j then none else lookup j m)
  unfolding lookup erase
  lookup-erase k j [] = ground arith
  lookup-erase k j ((i, w) ∷ m) =
      ground (arith, eq_iff k j, eq_iff i k, eq_iff i j, lookup-erase k j m)

  -- No entry has the key `k`.
  abbrev pub Fresh : String → List (String × V) → Type 0
  Fresh k m = All (λ e. e.0 ≢ k) m

  -- No key stands twice: what a Go map gives by being a map.
  abbrev pub DistinctKeys : List (String × V) → Type 0
  DistinctKeys [] = Unit
  DistinctKeys (e ∷ m) = Fresh e.0 m × DistinctKeys m

  Fresh-insert :
      (k j : String) (v : V) (m : List (String × V)) → j ≢ k → Fresh k m → Fresh k (insert j v m)
  unfolding insert
  Fresh-insert k j v [] n h = (n, tt)
  Fresh-insert k j v ((i, w) ∷ m) n (hi, hm) = elim (Bool-cases (i == j)) [
    | inl e ↦ rw e (n, hm)
    | inr e ↦ rw e (hi, Fresh-insert k j v m n hm)
  ]

  pub insert-DistinctKeys :
      (k : String) (v : V) (m : List (String × V)) → DistinctKeys m → DistinctKeys (insert k v m)
  unfolding insert
  insert-DistinctKeys k v [] h = (tt, tt)
  insert-DistinctKeys k v ((i, w) ∷ m) (hi, hm) = elim (Bool-cases (i == k)) [
    | inl e ↦ rw e (rw ((eq_iff i k).0 e) at hi, hm)
    | inr e ↦
        rw e
          (Fresh-insert i k v m (λ p. ground (arith, eq_iff i k)) hi, insert-DistinctKeys k v m hm)
  ]

  Fresh-erase : (k j : String) (m : List (String × V)) → Fresh k m → Fresh k (erase j m)
  unfolding erase
  Fresh-erase k j [] h = tt
  Fresh-erase k j ((i, w) ∷ m) (hi, hm) = elim (Bool-cases (i == j)) [
    | inl e ↦ rw e (Fresh-erase k j m hm)
    | inr e ↦ rw e (hi, Fresh-erase k j m hm)
  ]

  pub erase-DistinctKeys :
      (k : String) (m : List (String × V)) → DistinctKeys m → DistinctKeys (erase k m)
  unfolding erase
  erase-DistinctKeys k [] h = tt
  erase-DistinctKeys k ((i, w) ∷ m) (hi, hm) = elim (Bool-cases (i == k)) [
    | inl e ↦ rw e (erase-DistinctKeys k m hm)
    | inr e ↦ rw e (Fresh-erase i k m hi, erase-DistinctKeys k m hm)
  ]
