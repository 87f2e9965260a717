-- ===== src/Entry/Matcher/Best.antt =====
-- Which entry `MatchEntries` (matcher.go) returns: a matching one that no other matching entry
-- beats, whatever the order of the list.

use mathlib.Core.List.Perm
use mathlib.Core.List.{Mem, Perm}
use svidmint.Base.{
  String, ◌≡◌, sym, ap, ◌∙◌, ◌↔◌, ◌⊎◌, inl, inr, false, none, some, List, length, ◌<◌, All, arith,
  Bool-cases, Option-cases, ltb, eq_iff,
}
use svidmint.Base.Text.{str_ltb}
use svidmint.Entry.Types.{RegistrationEntry, Claims}
use svidmint.Entry.Matcher.Selectors.{Holds, all_selectors_match_iff}
use svidmint.Entry.Matcher.{better, match_loop, match_entries}
use svidmint.Entry.Matcher.Loop.{
  id-eq_of_not_better, Candidate, loop_unbeaten, loop_origin, loop_none,
}

-- What `MatchEntries` promises of its answer, with no loop in it.
pub record IsBest (entries : List RegistrationEntry) (name : String) (claims : Claims)
    (e : RegistrationEntry) : Type 0 where
  pub member : Mem e entries
  pub attestor : e.attestor ≡ name
  pub selectors : All (Holds claims) e.selectors
  pub unbeaten :
      (x : RegistrationEntry)
      → Mem x entries
      → x.attestor ≡ name
      → All (Holds claims) x.selectors
      → (length x.selectors < length e.selectors)
        ⊎ ((length x.selectors ≡ length e.selectors) × (str_ltb x.id e.id ≡ false))

not_better-order :
    (x e : RegistrationEntry)
    → better x e ≡ false
    → (length x.selectors < length e.selectors)
      ⊎ ((length x.selectors ≡ length e.selectors) × (str_ltb x.id e.id ≡ false))
unfolding better
not_better-order x e h = elim (Bool-cases (ltb (length x.selectors) (length e.selectors))) [
  | inl fewer ↦ inl (ground arith)
  | inr at_least ↦ inr (ground arith, ground arith)
]

order-not_better :
    (x e : RegistrationEntry)
    → (length x.selectors < length e.selectors)
      ⊎ ((length x.selectors ≡ length e.selectors) × (str_ltb x.id e.id ≡ false))
    → better x e ≡ false
unfolding better
order-not_better x e h = ground arith

to_Candidate :
    (name : String) (claims : Claims) (x : RegistrationEntry)
    → x.attestor ≡ name
    → All (Holds claims) x.selectors
    → Candidate name claims x
unfolding Candidate
to_Candidate name claims x p hs =
    ((eq_iff x.attestor name).1 p, (all_selectors_match_iff x.selectors claims).1 hs)

-- The entry that `MatchEntries` returns is in the list, is for the named attestor, has all its
-- selectors met by the claims, and among all such entries has the most selectors and, among those
-- with as many, an ID that no other precedes.
pub match_entries-IsBest :
    (entries : List RegistrationEntry) (name : String) (claims : Claims) (e : RegistrationEntry)
    → match_entries entries name claims ≡ some e
    → IsBest entries name claims e
unfolding match_entries Candidate
match_entries-IsBest entries name claims e h = elim (loop_origin name claims entries none e h) [
  | inl impossible ↦ absurd (ground arith)
  | inr (m, (named, matched)) ↦ record {
    member = m;
    attestor = (eq_iff e.attestor name).0 named;
    selectors = (all_selectors_match_iff e.selectors claims).0 matched;
    unbeaten = λ x mx p hs.
        not_better-order x e
          (loop_unbeaten name claims entries none e x h (to_Candidate name claims x p hs) mx);
  }
]

-- It returns nil exactly when no entry of the list is for the attestor with all selectors met.
pub match_entries-eq-none_iff :
    (entries : List RegistrationEntry) (name : String) (claims : Claims)
    → (match_entries entries name claims ≡ none) ↔ (
        (x : RegistrationEntry)
        → Mem x entries
        → x.attestor ≡ name
        → All (Holds claims) x.selectors
        → ⊥)
unfolding match_entries
match_entries-eq-none_iff entries name claims = (
  λ h x m p hs. loop_none name claims entries none x h m (to_Candidate name claims x p hs),
  λ none_fits. elim (Option-cases (match_loop name claims none entries)) [
    | inl e ↦ e
    | inr (e, found) ↦
        let best = match_entries-IsBest entries name claims e found in
        absurd (none_fits e best.member best.attestor best.selectors)
  ],
)

module _ (entries entries' : List RegistrationEntry) (name : String) (claims : Claims) where
  -- An order in which some entry fits finds one wherever another order does.
  none-perm :
      Perm entries entries'
      → match_entries entries name claims ≡ none
      → match_entries entries' name claims ≡ none
  none-perm same h =
      (match_entries-eq-none_iff entries' name claims).1
        λ x m. (match_entries-eq-none_iff entries name claims).0 h x ((Perm.mem_iff same).1 m)

  IsBest-unique :
      (a b : RegistrationEntry)
      → ((a b : RegistrationEntry) → Mem a entries → Mem b entries → a.id ≡ b.id → a ≡ b)
      → Perm entries entries'
      → IsBest entries name claims a
      → IsBest entries' name claims b
      → a ≡ b
  IsBest-unique a b unique same ha hb =
      let mb = (Perm.mem_iff same).1 hb.member in
      let ma = (Perm.mem_iff same).0 ha.member in
      unique a b ha.member mb (
        id-eq_of_not_better a b (order-not_better a b (hb.unbeaten a ma ha.attestor ha.selectors))
          (order-not_better b a (ha.unbeaten b mb hb.attestor hb.selectors)))

  -- Go's maps are walked in no fixed order. Where an ID belongs to one entry only, the answer is
  -- the same for every order of the entries.
  pub match_entries-perm :
      ((a b : RegistrationEntry) → Mem a entries → Mem b entries → a.id ≡ b.id → a ≡ b)
      → Perm entries entries'
      → match_entries entries name claims ≡ match_entries entries' name claims
  match_entries-perm unique same = elim (Option-cases (match_entries entries name claims)) [
    | inl e ↦ e ∙ sym (none-perm same e)
    | inr (a, ea) ↦ elim (Option-cases (match_entries entries' name claims)) [
      | inl e ↦ absurd (
          let best = match_entries-IsBest entries name claims a ea in
          (match_entries-eq-none_iff entries' name claims).0 e a ((Perm.mem_iff same).0 best.member)
            best.attestor best.selectors)
      | inr (b, eb) ↦
          ea
          ∙ ap some (
              IsBest-unique a b unique same (match_entries-IsBest entries name claims a ea)
                (match_entries-IsBest entries' name claims b eb))
          ∙ sym eb
    ]
  ]
