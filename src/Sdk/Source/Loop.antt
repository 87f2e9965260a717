-- ===== src/Sdk/Source/Loop.antt =====
-- The goroutine `refreshLoop` of x509source.go beside the callers of `Close`, as a step relation.
-- The loop does not hold the lock while it waits and while it fetches, so a `Close` may come
-- between any two steps.
use svidmint.Base.{◌≡◌, true, Option, none, some, List, [], ◌∷◌, ◌++◌, ok, err}
use svidmint.Base.Int.{◌+ℤ◌, ◌≤ℤ◌}
use svidmint.Ca.{Time, Duration, Crypto}
use svidmint.Sdk.Types.{Network, Formats, EvidenceJson, SdkError, Svid, Bundle}
use svidmint.Sdk.Source.{X509Source, cancel, mark_closed, store_both, next_wait, fetch}

-- Where the loop is: at its head, in the `select` until a time, in `refresh` before the lock, at
-- the lock with what was fetched, or returned.
pub data Loop : Type 0 where
  at_top fetching exited : Loop
  waiting : Time → Loop
  storing : Svid × Bundle → Loop

abbrev pub after_look : Time → Option Duration → Loop
after_look now none = exited
after_look now (some d) = waiting (now +ℤ d)

module _ {TlsCertificate : Type 0} (c : Crypto) (fmt : Formats TlsCertificate)
    (json : EvidenceJson) where
  -- one step of the loop; when both cases of the `select` are ready, either may be taken
  pub data LoopStep : X509Source → Loop → X509Source → Loop → Type 0 where
    look : (now : Time) (s : X509Source) → LoopStep s at_top s (after_look now (next_wait now s))
    done :
        (deadline : Time) (s : X509Source)
        → s.cancelled ≡ true
        → LoopStep s (waiting deadline) s exited
    fire :
        (deadline now : Time) (s : X509Source)
        → deadline ≤ℤ now
        → LoopStep s (waiting deadline) s fetching
    fail :
        (net : Network) (s : X509Source) (e : SdkError)
        → fetch c fmt json net s.client ≡ err e
        → LoopStep s fetching s at_top
    fetched :
        (net : Network) (s : X509Source) (both : Svid × Bundle)
        → fetch c fmt json net s.client ≡ ok both
        → LoopStep s fetching s (storing both)
    stored :
        (s : X509Source) (both : Svid × Bundle)
        → LoopStep s (storing both) (store_both both s) at_top

  -- a step of the loop, the two steps of `Close`, or the end of the caller's context
  pub data Step : X509Source → Loop → X509Source → Loop → Type 0 where
    by_loop : {s s' : X509Source} {l l' : Loop} → LoopStep s l s' l' → Step s l s' l'
    cancels : (s : X509Source) (l : Loop) → Step s l (cancel s) l
    closes : (s : X509Source) (l : Loop) → s.cancelled ≡ true → Step s l (mark_closed s) l

  -- the network that a step met, if it fetched
  abbrev pub loop_met : {s s' : X509Source} {l l' : Loop} → LoopStep s l s' l' → List Network
  loop_met (look now _) = []
  loop_met (done deadline _ cancelled) = []
  loop_met (fire deadline now _ due) = []
  loop_met (fail net _ e failed) = net ∷ []
  loop_met (fetched net _ both made) = net ∷ []
  loop_met (stored _ both) = []

  abbrev pub met : {s s' : X509Source} {l l' : Loop} → Step s l s' l' → List Network
  met (by_loop st) = loop_met st
  met (cancels _ _) = []
  met (closes _ _ cancelled) = []

  -- what comes after `NewX509Source` has started the goroutine, with the networks that the first
  -- fetch (`first_net`) and the later ones have met
  pub data Reach (first_net : Network) (s0 : X509Source)
      : List Network → X509Source → Loop → Type 0 where
    start : Reach first_net s0 (first_net ∷ []) s0 at_top
    next :
        {nets : List Network} {s s' : X509Source} {l l' : Loop}
        → Reach first_net s0 nets s l
        → (st : Step s l s' l') → Reach first_net s0 (met st ++ nets) s' l'
