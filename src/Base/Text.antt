-- ===== src/Base/Text.antt =====
-- Go strings as native texts: order, cutting, prefixes, splitting and joining.
use Prim.Native.Nat.{ℕ}
use Prim.Native.Char.{Char, code}
use Prim.Native.String.{String, ◌++◌}
use mathlib.Core.Path.{◌≡◌, refl}
use mathlib.Core.Logic.{inl, inr, ◌≢◌}
use mathlib.Core.Bool.{Bool, true, false}
use mathlib.Core.Option.{Option, none, some}
use mathlib.Core.List.{List, [], ◌∷◌}
use native.Mathlib.Omega.{arith}
use text.Mathlib.TextEquality.{Char-path}
use text.Mathlib.TextLemmas.{nil-append, cons-append}
use svidmint.Base.Tests.{ltb, eqb, Bool-cases, Option-cases, if◌then◌else◌}

abbrev pub codes : String → List ℕ
codes String.[] = []
codes (String.◌∷◌ c s) = code c ∷ codes s

-- `s < t`: bytes in order, which for UTF-8 is the order of code points.
unfoldable pub str_ltb : String → String → Bool
str_ltb String.[] String.[] = false
str_ltb String.[] (String.◌∷◌ d t) = true
str_ltb (String.◌∷◌ c s) String.[] = false
str_ltb (String.◌∷◌ c s) (String.◌∷◌ d t) =
    let rest = str_ltb s t in
    if ltb (code c) (code d) then true else if eqb (code c) (code d) then rest else false

pub str_ltb_irrefl : (s : String) → str_ltb s s ≡ false
unfolding str_ltb
str_ltb_irrefl String.[] = refl
str_ltb_irrefl (String.◌∷◌ c s) = ground (arith, str_ltb_irrefl s)

pub str_ltb_trans : (s t u : String) → str_ltb s t ≡ true → str_ltb t u ≡ true → str_ltb s u ≡ true
unfolding str_ltb
str_ltb_trans String.[] String.[] u h k = cc
str_ltb_trans String.[] (String.◌∷◌ d t) String.[] h k = cc
str_ltb_trans String.[] (String.◌∷◌ d t) (String.◌∷◌ e u) h k = refl
str_ltb_trans (String.◌∷◌ c s) String.[] u h k = cc
str_ltb_trans (String.◌∷◌ c s) (String.◌∷◌ d t) String.[] h k = cc
str_ltb_trans (String.◌∷◌ c s) (String.◌∷◌ d t) (String.◌∷◌ e u) h k =
    ground (arith, str_ltb_trans s t u)

pub cons_path : (c d : Char) (s t : String) → c ≡ d → s ≡ t → String.◌∷◌ c s ≡ String.◌∷◌ d t
cons_path c d s t p q = cc

-- Two texts neither of which is smaller are equal.
pub str_ltb_connex : (s t : String) → str_ltb s t ≡ false → str_ltb t s ≡ false → s ≡ t
unfolding str_ltb
str_ltb_connex String.[] String.[] h k = refl
str_ltb_connex String.[] (String.◌∷◌ d t) h k = cc
str_ltb_connex (String.◌∷◌ c s) String.[] h k = cc
str_ltb_connex (String.◌∷◌ c s) (String.◌∷◌ d t) h k =
    cons_path c d s t (Char-path c d (ground arith))
      (str_ltb_connex s t (ground arith) (ground arith))

-- "Not smaller" is transitive too.
pub not_str_ltb_trans :
    (s t u : String) → str_ltb s t ≡ false → str_ltb t u ≡ false → str_ltb s u ≡ false
not_str_ltb_trans s t u h k =
    ground (arith, str_ltb_trans t s u, str_ltb_connex s t, str_ltb_trans s u t)

abbrev on_left : Char → Option (String × String) → Option (String × String)
on_left c none = none
on_left c (some (k, v)) = some (String.◌∷◌ c k, v)

-- `strings.Cut(s, sep)` at a separator of one character; `none` where it is not found.
unfoldable pub cut : ℕ → String → Option (String × String)
cut sep String.[] = none
cut sep (String.◌∷◌ c s) =
    let rest = cut sep s in if eqb (code c) sep then some (String.[], s) else on_left c rest

-- The rest of a text behind a prefix, for `strings.HasPrefix`.
unfoldable pub strip_prefix : String → String → Option String
strip_prefix String.[] s = some s
strip_prefix (String.◌∷◌ p ps) String.[] = none
strip_prefix (String.◌∷◌ p ps) (String.◌∷◌ c s) =
    if eqb (code p) (code c) then strip_prefix ps s else none

unfoldable pub has_prefix : String → String → Bool
unfolding strip_prefix
has_prefix s prefix = elim (strip_prefix prefix s) [ none ↦ false | some _ ↦ true ]

abbrev on_head : Char → List String → List String
on_head c [] = String.◌∷◌ c String.[] ∷ []
on_head c (p ∷ ps) = String.◌∷◌ c p ∷ ps

-- `strings.Split(s, sep)` at a separator of one character.
unfoldable pub split : ℕ → String → List String
split sep String.[] = String.[] ∷ []
split sep (String.◌∷◌ c s) =
    let rest = split sep s in if eqb (code c) sep then String.[] ∷ rest else on_head c rest

-- `strings.Join(parts, sep)`.
unfoldable pub join : String → List String → String
join sep [] = String.[]
join sep (p ∷ []) = p
join sep (p ∷ q ∷ rest) = p ++ (sep ++ join sep (q ∷ rest))

-- A text has no character with this code.
abbrev pub Lacks : ℕ → String → Type 0
Lacks sep String.[] = Unit
Lacks sep (String.◌∷◌ c s) = (code c ≢ sep) × Lacks sep s

-- Cutting at a separator that the key lacks gives the key and the rest.
pub cut-append :
    (sep : Char) (k v : String)
    → Lacks (code sep) k
    → cut (code sep) (k ++ String.◌∷◌ sep v) ≡ some (k, v)
unfolding cut
cut-append sep String.[] v h = rw nil-append (ground arith)
cut-append sep (String.◌∷◌ c k) v h = rw cons-append (ground (arith, cut-append sep k v h.1))

abbrev cut_at : String → String → Option (String × String)
cut_at k v = some (k, v)

cut_here :
    (sep c : Char) (s k v : String)
    → code c ≡ code sep
    → cut_at String.[] s ≡ cut_at k v
    → (String.◌∷◌ c s ≡ k ++ String.◌∷◌ sep v) × Lacks (code sep) k
cut_here sep c s k v e h =
    let empty : k ≡ String.[] = ground arith in
    let same : s ≡ v = ground arith in
    rw empty (rw nil-append (cons_path c sep s v (Char-path c sep e) same), tt)

cut_later :
    (sep c : Char) (s k k' v v' : String)
    → code c ≢ code sep
    → (s ≡ k' ++ String.◌∷◌ sep v') × Lacks (code sep) k'
    → cut_at (String.◌∷◌ c k') v' ≡ cut_at k v
    → (String.◌∷◌ c s ≡ k ++ String.◌∷◌ sep v) × Lacks (code sep) k
cut_later sep c s k k' v v' n ih h =
    let key : k ≡ String.◌∷◌ c k' = ground arith in
    let same : v ≡ v' = ground arith in
    rw (key, same) (rw cons-append (cons_path c c s _ refl ih.0), (n, ih.1))

-- What is cut off is the text: the key, the separator, the rest.
pub cut_sound :
    (sep : Char) (s k v : String)
    → cut (code sep) s ≡ some (k, v)
    → (s ≡ k ++ String.◌∷◌ sep v) × Lacks (code sep) k
unfolding cut
cut_sound sep String.[] k v h = cc
cut_sound sep (String.◌∷◌ c s) k v h = elim (Bool-cases (eqb (code c) (code sep))) [
  | inl e ↦ cut_here sep c s k v (ground arith) (rw e at h)
  | inr n ↦ elim (Option-cases (cut (code sep) s)) [
    | inl missing ↦ absurd (ground arith)
    | inr ((k', v'), found) ↦
        cut_later sep c s k k' v v' (ground arith) (cut_sound sep s k' v' found)
          (rw (n, found) at h)
  ]
]

pub strip_prefix-append : (p s : String) → strip_prefix p (p ++ s) ≡ some s
unfolding strip_prefix
strip_prefix-append String.[] s = rw nil-append
strip_prefix-append (String.◌∷◌ c p) s = rw cons-append (ground (arith, strip_prefix-append p s))

pub strip_prefix_sound : (p s r : String) → strip_prefix p s ≡ some r → s ≡ p ++ r
unfolding strip_prefix
strip_prefix_sound String.[] s r h = rw nil-append (cc)
strip_prefix_sound (String.◌∷◌ c p) String.[] r h = cc
strip_prefix_sound (String.◌∷◌ c p) (String.◌∷◌ d s) r h = rw cons-append (
    cons_path d c s (p ++ r) (Char-path d c (ground arith))
      (strip_prefix_sound p s r (ground arith)))
