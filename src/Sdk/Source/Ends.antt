-- ===== src/Sdk/Source/Ends.antt =====
-- `refreshLoop` of x509source.go returns after `Close`.
use svidmint.Base.{ℕ, suc}
use svidmint.Ca.{Crypto}
use svidmint.Sdk.Types.{Formats, EvidenceJson}
use svidmint.Sdk.Source.{X509Source}
use svidmint.Sdk.Source.Loop.{Loop, at_top, waiting, fetching, storing, exited, LoopStep}

-- How many steps the loop of a closed source still has at most.
abbrev pub rank : Loop → ℕ
rank exited = 0
rank at_top = 1
rank (storing _) = 2
rank fetching = 3
rank (waiting _) = 4

module _ {TlsCertificate : Type 0} (c : Crypto) (fmt : Formats TlsCertificate)
    (json : EvidenceJson) where
  -- A number of steps of the loop.
  pub data LoopRun : ℕ → X509Source → Loop → X509Source → Loop → Type 0 where
    here : {s : X509Source} {l : Loop} → LoopRun 0 s l s l
    on :
        {n : ℕ} {s s' s'' : X509Source} {l l' l'' : Loop}
        → LoopStep c fmt json s l s' l'
        → LoopRun n s' l' s'' l''
        → LoopRun (suc n) s l s'' l''

  -- A run of the loop to its end.
  pub record IsOver (s : X509Source) (l : Loop) : Type 0 where
    pub steps : ℕ
    pub last : X509Source
    pub run : LoopRun steps s l last exited
