-- ===== src/Sdk/Source/Current.antt =====
-- What the methods of an `X509Source` answer at any time between its making and ever after.
use mathlib.Core.Path.{subst}
use mathlib.Core.List.{mem-cons_self}
use svidmint.Base.{
  String, ◌≡◌, refl, true, List, [], ◌∷◌, inl, inr, Result, ok, err, Bool-cases, arith,
}
use svidmint.Ca.{Crypto}
use svidmint.Sdk.Types.{Network, Formats, EvidenceJson, SdkError, source_closed, Svid, Bundle}
use svidmint.Sdk.Client.{Client, ClientOption, new_client}
use svidmint.Sdk.Source.{
  X509Source, get_x509_svid, get_x509_bundle_for_trust_domain, store_both, started, commit,
  fresh_source, fetch, refresh, new_x509_source,
}
use svidmint.Sdk.Source.Loop.{Loop, at_top, Reach, start, next}
use svidmint.Sdk.Source.Fetched.{IsFetched}
use svidmint.Sdk.Source.Steps.{IsCurrent, Step-IsCurrent}

module _ {TlsCertificate : Type 0} (c : Crypto) (fmt : Formats TlsCertificate)
    (json : EvidenceJson) where
  Reach-IsCurrent :
      (first_net : Network) (client : Client) (s0 : X509Source) (nets : List Network)
      (s : X509Source) (l : Loop)
      → IsCurrent c fmt json (first_net ∷ []) client s0 at_top
      → Reach c fmt json first_net s0 nets s l
      → IsCurrent c fmt json nets client s l
  Reach-IsCurrent first_net client s0 _ _ _ i start = i
  Reach-IsCurrent first_net client s0 _ s' l' i (next {nets} {s} {l = l} run st) =
      Step-IsCurrent c fmt json nets client s s' l l'
        (Reach-IsCurrent first_net client s0 nets s l i run) st

  started-ok :
      (net : Network) (client : Client) (s0 : X509Source) (r : Result SdkError (Svid × Bundle))
      → fetch c fmt json net client ≡ r
      → started c fmt (commit (fresh_source client) r) ≡ ok s0
      → IsCurrent c fmt json (net ∷ []) client s0 at_top
  unfolding store_both
  started-ok net client s0 (err e) made h = absurd (cc)
  started-ok net client s0 (ok both) made h =
      let same : store_both both (fresh_source client) ≡ s0 = cc in
      subst (λ (s : X509Source). IsCurrent c fmt json (net ∷ []) client s at_top) same
        (record {
          same_client = refl;
          both = both;
          one_fetch = record { net = net; met = mem-cons_self; fetched = made };
          svid = refl;
          bundle = refl;
          after_cancel = λ closed. absurd (cc);
          loop = tt;
        })

  new_x509_source-IsCurrent :
      (net : Network) (opts : List ClientOption) (client : Client) (s0 : X509Source)
      → new_client opts ≡ ok client
      → new_x509_source c fmt json net opts ≡ ok s0
      → IsCurrent c fmt json (net ∷ []) client s0 at_top
  unfolding new_x509_source refresh
  new_x509_source-IsCurrent net opts client s0 built h =
      started-ok net client s0 (fetch c fmt json net client) refl (rw built at h)

  -- What a source of the client answers when it is open, and when it is closed.
  pub data Answers (nets : List Network) (client : Client) (s : X509Source) : Type 0 where
    open_answers :
        (both : Svid × Bundle)
        → IsFetched c fmt json nets client both
        → get_x509_svid s ≡ ok both.0
        → ((td : String) → get_x509_bundle_for_trust_domain s td ≡ ok both.1)
        → Answers nets client s
    closed_answers :
        s.closed ≡ true
        → get_x509_svid s ≡ err source_closed
        → ((td : String) → get_x509_bundle_for_trust_domain s td ≡ err source_closed)
        → Answers nets client s

  -- From when `NewX509Source` has returned a source, whatever the loop and calls of `Close` do and
  -- in whatever order, `GetX509SVID` and `GetX509BundleForTrustDomain` answer with the SVID and the
  -- bundle of one and the same successful fetch, from one of the networks that the source has met
  -- (a network is what the server answers during one fetch); once the source is closed both answer
  -- that it is. A refresh that fails, or that a `Close` overtakes, never leaves one without the
  -- other.
  pub Reach-Answers :
      (net : Network) (nets : List Network) (opts : List ClientOption) (client : Client)
      (s0 s : X509Source) (l : Loop)
      → new_client opts ≡ ok client
      → new_x509_source c fmt json net opts ≡ ok s0
      → Reach c fmt json net s0 nets s l
      → Answers nets client s
  unfolding get_x509_svid get_x509_bundle_for_trust_domain
  Reach-Answers net nets opts client s0 s l built made run =
      let i =
        Reach-IsCurrent net client s0 nets s l
          (new_x509_source-IsCurrent net opts client s0 built made) run in
      elim (Bool-cases s.closed) [
        | inl e ↦ closed_answers e (ground arith) (λ td. ground arith)
        | inr e ↦ open_answers i.both i.one_fetch (rw (e, i.svid)) (λ td. rw (e, i.bundle))
      ]
