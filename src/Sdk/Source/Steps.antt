-- ===== src/Sdk/Source/Steps.antt =====
-- What every step of the loop and of `Close` keeps true of an `X509Source` (x509source.go).
use mathlib.Core.List.{mem-cons_self, mem-cons_of_mem}
use svidmint.Base.{
  ◌≡◌, refl, sym, ap, ◌∙◌, true, false, Option, none, some, List, ◌∷◌, ◌++◌, inl, inr, Bool-cases,
  is_empty,
}
use svidmint.Ca.{Time, Duration, Crypto}
use svidmint.Sdk.Types.{Network, Formats, EvidenceJson, Svid, Bundle}
use svidmint.Sdk.Client.{Client}
use svidmint.Sdk.Source.{X509Source, cancel, mark_closed, store_both, next_wait, fetch}
use svidmint.Sdk.Source.Loop.{
  loop_met, met, Loop, at_top, waiting, fetching, storing, exited, after_look, LoopStep, look, done,
  fire, fail, fetched, stored, Step, by_loop, cancels, closes,
}
use svidmint.Sdk.Source.Fetched.{IsFetched, first_wait-some, fetch-not_empty}

module _ {TlsCertificate : Type 0} (c : Crypto) (fmt : Formats TlsCertificate)
    (json : EvidenceJson) where
  -- What holds wherever the source and its loop are: the source has what one fetch gave, `closed`
  -- comes after `cancelled`, and the loop stores only what was fetched, and returns only then.
  abbrev LoopHolds : List Network → X509Source → Loop → Type 0
  LoopHolds nets s at_top = Unit
  LoopHolds nets s (waiting _) = Unit
  LoopHolds nets s fetching = Unit
  LoopHolds nets s (storing both) = IsFetched c fmt json nets s.client both
  LoopHolds nets s exited = s.cancelled ≡ true

  pub record IsCurrent (nets : List Network) (client : Client) (s : X509Source) (l : Loop)
      : Type 0 where
    pub same_client : s.client ≡ client
    pub both : Svid × Bundle
    pub one_fetch : IsFetched c fmt json nets client both
    pub svid : s.svid ≡ some both.0
    pub bundle : s.bundle ≡ some both.1
    pub after_cancel : s.closed ≡ true → s.cancelled ≡ true
    pub loop : LoopHolds nets s l

  next_wait-some :
      (now : Time) (s : X509Source) (svid : Svid)
      → s.svid ≡ some svid
      → is_empty svid.certificates ≡ false
      → next_wait now s ≡ none
      → s.closed ≡ true
  unfolding next_wait
  next_wait-some now s svid has n h = elim (Bool-cases s.closed) [
    | inl e ↦ e
    | inr e ↦ first_wait-some c fmt json now svid.certificates n (rw (e, has) at h)
  ]

  after_look-LoopHolds :
      (nets : List Network) (now : Time) (s : X509Source) (w : Option Duration)
      → (w ≡ none → s.cancelled ≡ true)
      → LoopHolds nets s (after_look now w)
  after_look-LoopHolds nets now s none h = h refl
  after_look-LoopHolds nets now s (some d) h = tt

  -- the head of the loop returns only from a closed source
  look-LoopHolds :
      (nets : List Network) (client : Client) (now : Time) (s : X509Source) (l : Loop)
      → IsCurrent nets client s l
      → LoopHolds nets s (after_look now (next_wait now s))
  look-LoopHolds nets client now s l i = after_look-LoopHolds nets now s (next_wait now s) λ over.
      i.after_cancel (
        next_wait-some now s i.both.0 i.svid
          (fetch-not_empty c fmt json i.one_fetch.net client i.both i.one_fetch.fetched) over)

  moved :
      {nets : List Network} {client : Client} {s : X509Source} {l l' : Loop}
      → IsCurrent nets client s l
      → LoopHolds nets s l'
      → IsCurrent nets client s l'
  moved i there = record {
    same_client = i.same_client;
    both = i.both;
    one_fetch = i.one_fetch;
    svid = i.svid;
    bundle = i.bundle;
    after_cancel = i.after_cancel;
    loop = there;
  }

  met_more :
      {nets : List Network} {client : Client} {both : Svid × Bundle} (net : Network)
      → IsFetched c fmt json nets client both
      → IsFetched c fmt json (net ∷ nets) client both
  met_more net f = record { net = f.net; met = mem-cons_of_mem net f.met; fetched = f.fetched }

  -- a fetch meets one more network, and ends at the head of the loop or before the lock
  met_by :
      {nets : List Network} {client : Client} {s : X509Source} {l l' : Loop} (net : Network)
      → IsCurrent nets client s l
      → LoopHolds (net ∷ nets) s l'
      → IsCurrent (net ∷ nets) client s l'
  met_by net i there = record {
    same_client = i.same_client;
    both = i.both;
    one_fetch = met_more net i.one_fetch;
    svid = i.svid;
    bundle = i.bundle;
    after_cancel = i.after_cancel;
    loop = there;
  }

  loop_step-IsCurrent :
      (nets : List Network) (client : Client) (s s' : X509Source) (l l' : Loop)
      → IsCurrent nets client s l
      → (st : LoopStep c fmt json s l s' l')
      → IsCurrent (loop_met c fmt json st ++ nets) client s' l'
  unfolding store_both
  loop_step-IsCurrent nets client s _ _ _ i (look now _) =
      moved i (look-LoopHolds nets client now s at_top i)
  loop_step-IsCurrent nets client s _ _ _ i (done deadline _ cancelled) = moved i cancelled
  loop_step-IsCurrent nets client s _ _ _ i (fire deadline now _ due) = moved i tt
  loop_step-IsCurrent nets client s _ _ _ i (fail net _ e failed) = met_by net i tt
  loop_step-IsCurrent nets client s _ _ _ i (fetched net _ both made) =
      met_by net i (record { net = net; met = mem-cons_self; fetched = made })
  loop_step-IsCurrent nets client s _ _ _ i (stored _ both) = record {
    same_client = i.same_client;
    both = both;
    one_fetch = record {
      net = i.loop.net;
      met = i.loop.met;
      fetched = ap (fetch c fmt json i.loop.net) (sym i.same_client) ∙ i.loop.fetched;
    };
    svid = refl;
    bundle = refl;
    after_cancel = i.after_cancel;
    loop = tt;
  }

  cancel-LoopHolds :
      (nets : List Network) (s : X509Source) (l : Loop)
      → LoopHolds nets s l
      → LoopHolds nets (cancel s) l
  unfolding cancel
  cancel-LoopHolds nets s at_top h = tt
  cancel-LoopHolds nets s (waiting _) h = tt
  cancel-LoopHolds nets s fetching h = tt
  cancel-LoopHolds nets s (storing both) h = h
  cancel-LoopHolds nets s exited h = refl

  closed-LoopHolds :
      (nets : List Network) (s : X509Source) (l : Loop)
      → LoopHolds nets s l
      → LoopHolds nets (mark_closed s) l
  unfolding mark_closed
  closed-LoopHolds nets s at_top h = tt
  closed-LoopHolds nets s (waiting _) h = tt
  closed-LoopHolds nets s fetching h = tt
  closed-LoopHolds nets s (storing both) h = h
  closed-LoopHolds nets s exited h = h

  pub Step-IsCurrent :
      (nets : List Network) (client : Client) (s s' : X509Source) (l l' : Loop)
      → IsCurrent nets client s l
      → (st : Step c fmt json s l s' l') → IsCurrent (met c fmt json st ++ nets) client s' l'
  unfolding cancel mark_closed
  Step-IsCurrent nets client s s' l l' i (by_loop st) =
      loop_step-IsCurrent nets client s s' l l' i st
  Step-IsCurrent nets client s _ l _ i (cancels _ _) = record {
    same_client = i.same_client;
    both = i.both;
    one_fetch = i.one_fetch;
    svid = i.svid;
    bundle = i.bundle;
    after_cancel = λ _. refl;
    loop = cancel-LoopHolds nets s l i.loop;
  }
  Step-IsCurrent nets client s _ l _ i (closes _ _ cancelled) = record {
    same_client = i.same_client;
    both = i.both;
    one_fetch = i.one_fetch;
    svid = i.svid;
    bundle = i.bundle;
    after_cancel = λ _. cancelled;
    loop = closed-LoopHolds nets s l i.loop;
  }
