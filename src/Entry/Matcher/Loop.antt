-- ===== src/Entry/Matcher/Loop.antt =====
-- The loop of `MatchEntries` (matcher.go): the order on entries, and what a round keeps.
use mathlib.Core.HLevel.{⊥_prop}
use mathlib.Core.Bool.{Bool-set}
use mathlib.Core.Logic.Or
use mathlib.Core.List.{Mem, not-mem-nil, mem-cons, mem-cons_self, mem-cons_of_mem}
use svidmint.Base.{
  String, ◌≡◌, refl, ◌⊎◌, inl, inr, Bool, true, false, Option, none, some, List, [], ◌∷◌,
  if◌then◌else◌, arith, Bool-cases, ◌==◌,
}
use svidmint.Base.Text.{str_ltb_trans, not_str_ltb_trans, str_ltb_connex, str_ltb_irrefl}
use svidmint.Entry.Types.{RegistrationEntry, Claims}
use svidmint.Entry.Matcher.{all_selectors_match, better, replaces, match_step, match_loop}

better_irrefl : (e : RegistrationEntry) → better e e ≡ false
unfolding better
better_irrefl e = ground (arith, str_ltb_irrefl e.id)

better_asym_absurd : (a b : RegistrationEntry) → better a b ≡ true → better b a ≡ true → ⊥
unfolding better
better_asym_absurd a b h k = ground (arith, str_ltb_trans a.id b.id a.id, str_ltb_irrefl a.id)

not_better_trans :
    (a b c : RegistrationEntry) → better a b ≡ false → better b c ≡ false → better a c ≡ false
unfolding better
not_better_trans a b c h k = ground (arith, not_str_ltb_trans a.id b.id c.id)

better_asym : (a b : RegistrationEntry) → better a b ≡ true → better b a ≡ false
better_asym a b h = elim (Bool-cases (better b a)) [
  | inl k ↦ absurd (better_asym_absurd a b h k)
  | inr k ↦ k
]

-- Neither beats the other only if they have one ID.
pub id-eq_of_not_better :
    (a b : RegistrationEntry) → better a b ≡ false → better b a ≡ false → a.id ≡ b.id
unfolding better
id-eq_of_not_better a b h k = ground (arith, str_ltb_connex a.id b.id)

choose_origin :
    (t : Bool) (x c : RegistrationEntry) (best : Option RegistrationEntry)
    → (if t then some x else best) ≡ some c
    → (best ≡ some c) ⊎ (x ≡ c)
choose_origin true x c best h = inr (cc)
choose_origin false x c best h = inl h

module _ (name : String) (claims : Claims) where
  -- The tests that `MatchEntries` makes of one entry.
  unfoldable pub Candidate : RegistrationEntry → Type 0
  Candidate e = ((e.attestor == name) ≡ true) × (all_selectors_match e.selectors claims ≡ true)

  step_old :
      (b x : RegistrationEntry)
      → (c : RegistrationEntry) × (match_step name claims (some b) x ≡ some c)
        × (better b c ≡ false)
  unfolding match_step
  step_old b x = elim (Bool-cases (x.attestor == name)) [
    | inr no_name ↦ (b, rw no_name, better_irrefl b)
    | inl named ↦ elim (Bool-cases (all_selectors_match x.selectors claims)) [
      | inr no_match ↦ (b, rw (named, no_match), better_irrefl b)
      | inl matched ↦ elim (Bool-cases (better x b)) [
        | inl beats ↦ (x, rw (named, matched, beats), better_asym x b beats)
        | inr stays ↦ (b, rw (named, matched, stays), better_irrefl b)
      ]
    ]
  ]

  step_new :
      (best : Option RegistrationEntry) (x : RegistrationEntry)
      → Candidate x
      → (c : RegistrationEntry) × (match_step name claims best x ≡ some c) × (better x c ≡ false)
  unfolding match_step Candidate
  step_new none x (named, matched) = (x, rw (named, matched), better_irrefl x)
  step_new (some b) x (named, matched) = elim (Bool-cases (better x b)) [
    | inl beats ↦ (x, rw (named, matched, beats), better_irrefl x)
    | inr stays ↦ (b, rw (named, matched, stays), stays)
  ]

  step_origin :
      (best : Option RegistrationEntry) (x c : RegistrationEntry)
      → match_step name claims best x ≡ some c
      → (best ≡ some c) ⊎ ((x ≡ c) × Candidate x)
  unfolding match_step Candidate
  step_origin best x c h = elim (Bool-cases (x.attestor == name)) [
    | inr no_name ↦ inl (rw no_name at h)
    | inl named ↦ elim (Bool-cases (all_selectors_match x.selectors claims)) [
      | inr no_match ↦ inl (rw (named, no_match) at h)
      | inl matched ↦ elim (choose_origin (replaces x best) x c best (rw (named, matched) at h)) [
        | inl old ↦ inl old
        | inr same ↦ inr (same, (named, matched))
      ]
    ]
  ]

  loop_old :
      (l : List RegistrationEntry) (b e : RegistrationEntry)
      → match_loop name claims (some b) l ≡ some e
      → better b e ≡ false
  unfolding match_loop
  loop_old [] b e h = let same : b ≡ e = cc in rw same (better_irrefl e)
  loop_old (x ∷ l) b e h =
      let (c, step, above) = step_old b x in
      not_better_trans b c e above (loop_old l c e (rw step at h))

  pub loop_unbeaten :
      (l : List RegistrationEntry) (best : Option RegistrationEntry) (e x : RegistrationEntry)
      → match_loop name claims best l ≡ some e
      → Candidate x
      → Mem x l
      → better x e ≡ false
  unfolding match_loop
  loop_unbeaten [] best e x h cand m = absurd (not-mem-nil m)
  loop_unbeaten (y ∷ l) best e x h cand m =
      Or.elim (Bool-set _ _) (mem-cons.0 m)
        (λ same.
          let (c, step, above) = step_new best y (rw same at cand) in
          rw same (not_better_trans y c e above (loop_old l c e (rw step at h))))
        (loop_unbeaten l (match_step name claims best y) e x h cand)

  pub loop_origin :
      (l : List RegistrationEntry) (best : Option RegistrationEntry) (e : RegistrationEntry)
      → match_loop name claims best l ≡ some e
      → (best ≡ some e) ⊎ (Mem e l × Candidate e)
  unfolding match_loop
  loop_origin [] best e h = inl h
  loop_origin (x ∷ l) best e h = elim (loop_origin l (match_step name claims best x) e h) [
    | inr (m, cand) ↦ inr (mem-cons_of_mem x m, cand)
    | inl step ↦ elim (step_origin best x e step) [
      | inl old ↦ inl old
      | inr (same, cand) ↦ inr (rw same mem-cons_self, rw same at cand)
    ]
  ]

  loop_some :
      (l : List RegistrationEntry) (b : RegistrationEntry)
      → (e : RegistrationEntry) × (match_loop name claims (some b) l ≡ some e)
  unfolding match_loop
  loop_some [] b = (b, refl)
  loop_some (x ∷ l) b =
      let (c, step, _) = step_old b x in let (e, found) = loop_some l c in (e, rw step found)

  pub loop_none :
      (l : List RegistrationEntry) (best : Option RegistrationEntry) (x : RegistrationEntry)
      → match_loop name claims best l ≡ none
      → Mem x l
      → ¬ Candidate x
  unfolding match_loop
  loop_none [] best x h m cand = absurd (not-mem-nil m)
  loop_none (y ∷ l) best x h m cand =
      Or.elim ⊥_prop (mem-cons.0 m)
        (λ same.
          let (c, step, _) = step_new best y (rw same at cand) in
          let (e, found) = loop_some l c in ground (arith, step, found))
        (λ later. loop_none l (match_step name claims best y) x h later cand)
