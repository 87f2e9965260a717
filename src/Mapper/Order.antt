-- ===== src/Mapper/Order.antt =====
-- `DeriveSpiffeID` (internal/mapper/mapper.go) ranges over a Go map, which has no order.
use Prim.Native.String.{◌++◌}
use mathlib.Core.HLevel.{⊥_prop}
use mathlib.Core.List.Perm
use mathlib.Core.List.{Mem, Perm, not-mem-nil, mem-cons, mem-cons_self, mem-cons_of_mem}
use mathlib.Core.Logic.Or
use text.Mathlib.TextEquality.{IsScalar-prop}
use svidmint.Base.{
  String, ◌≡◌, ◌≢◌, refl, sym, ap, ◌∙◌, Option, none, some, List, [], ◌∷◌, map, inl, inr, ◌==◌,
  eq_iff, Bool-cases, Option-cases, arith,
}
use svidmint.Base.Text.{join, str_ltb_irrefl, str_ltb_trans, str_ltb_connex}
use svidmint.Base.Assoc.{lookup, Fresh, DistinctKeys}
use svidmint.Entry.{Claims}
use svidmint.Mapper.{insert_sorted, sort_strings, value_of, claim, key_of, derive_spiffe_id}

insert_swap :
    (a b : String) (keys : List String)
    → insert_sorted a (insert_sorted b keys) ≡ insert_sorted b (insert_sorted a keys)
unfolding insert_sorted
insert_swap a b [] = ground (arith, str_ltb_irrefl a, str_ltb_trans a b a, str_ltb_connex a b)
insert_swap a b (k ∷ keys) = ground (
  arith,
  insert_swap a b keys,
  str_ltb_irrefl a,
  str_ltb_trans a b a,
  str_ltb_connex a b,
  str_ltb_trans a b k,
  str_ltb_trans b a k,
)

Keys-set : IsSet (List String)
Keys-set = hlevel IsScalar-prop

Values-set : IsSet (Option String)
Values-set = hlevel IsScalar-prop

sort_strings-perm :
    (keys keys' : List String) → Perm keys keys' → sort_strings keys ≡ sort_strings keys'
unfolding sort_strings
sort_strings-perm keys keys' same = Perm.foldr-eq Keys-set insert_sorted insert_swap same []

Fresh-absent : (j k v : String) (claims : Claims) → Fresh j claims → Mem (k, v) claims → j ≢ k
Fresh-absent j k v [] f m e = not-mem-nil m
Fresh-absent j k v (entry ∷ claims) (n, f) m e =
    Or.elim ⊥_prop (mem-cons.0 m) (λ here. n (sym (ap (λ (x : String × String). x.0) here) ∙ sym e))
      (λ later. Fresh-absent j k v claims f later e)

-- Where a key stands once, its entry is the one that is looked up.
mem-lookup :
    (k v : String) (claims : Claims)
    → DistinctKeys claims
    → Mem (k, v) claims
    → lookup k claims ≡ some v
unfolding lookup
mem-lookup k v [] d m = absurd (not-mem-nil m)
mem-lookup k v ((j, w) ∷ claims) (f, d) m =
    Or.elim (Values-set (lookup k ((j, w) ∷ claims)) (some v)) (mem-cons.0 m)
      (λ here.
        let key : k ≡ j = ap (λ (e : String × String). e.0) here in
        let value : v ≡ w = ap (λ (e : String × String). e.1) here in ground (arith, eq_iff j k))
      (λ later. elim (Bool-cases (j == k)) [
        | inl e ↦ absurd (Fresh-absent j k v claims f later ((eq_iff j k).0 e))
        | inr e ↦ rw (e, lookup) (mem-lookup k v claims d later)
      ])

lookup-mem : (k v : String) (claims : Claims) → lookup k claims ≡ some v → Mem (k, v) claims
unfolding lookup
lookup-mem k v [] h = absurd (cc)
lookup-mem k v ((j, w) ∷ claims) h = elim (Bool-cases (j == k)) [
  | inl e ↦
      let here : ◌≡◌ {A = String × String} (k, v) (j, w) = ground (arith, eq_iff j k) in
      rw here mem-cons_self
  | inr e ↦ mem-cons_of_mem (j, w) (lookup-mem k v claims (rw (e, lookup) at h))
]

lookup-perm :
    (k : String) (claims claims' : Claims)
    → DistinctKeys claims
    → DistinctKeys claims'
    → Perm claims claims'
    → lookup k claims ≡ lookup k claims'
lookup-perm k claims claims' d d' same = elim (Option-cases (lookup k claims)) [
  | inr (v, found) ↦
      found ∙ sym (mem-lookup k v claims' d' ((Perm.mem_iff same).0 (lookup-mem k v claims found)))
  | inl missing ↦ elim (Option-cases (lookup k claims')) [
    | inl missing' ↦ missing ∙ sym missing'
    | inr (v, found) ↦ absurd (
        none_some v (
          sym missing
          ∙ mem-lookup k v claims d ((Perm.mem_iff same).1 (lookup-mem k v claims' found))))
  ]
]
  where
    none_some : {P : Type 0} (v : String) → none ≡ some v → P
    none_some v h = absurd (cc)

map-claim :
    (claims claims' : Claims) (keys : List String)
    → ((k : String) → lookup k claims ≡ lookup k claims')
    → map (claim claims) keys ≡ map (claim claims') keys
map-claim claims claims' [] h = refl
map-claim claims claims' (k ∷ keys) h =
    let rest = map-claim claims claims' keys h in
    let first : claim claims k ≡ claim claims' k = ap value_of (h k) in cc

-- The ID depends on the map of claims alone: two lists of its entries, each with every key once, in
-- whatever order, give the same ID.
pub derive_spiffe_id-perm :
    (trust_domain attestor : String) (claims claims' : Claims)
    → DistinctKeys claims
    → DistinctKeys claims'
    → Perm claims claims'
    → derive_spiffe_id trust_domain attestor claims ≡ derive_spiffe_id trust_domain attestor claims'
unfolding derive_spiffe_id
derive_spiffe_id-perm trust_domain attestor claims claims' d d' same =
    let keys = sort_strings-perm (map key_of claims) (map key_of claims') (Perm.map key_of same) in
    let values =
      map-claim claims claims' (sort_strings (map key_of claims))
        λ k. lookup-perm k claims claims' d d' same in
    ap (λ vs. "spiffe://" ++ (trust_domain ++ ("/" ++ (attestor ++ ("/" ++ join "/" vs)))))
      (values ∙ ap (map (claim claims')) keys)
