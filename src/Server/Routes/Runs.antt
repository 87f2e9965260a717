-- ===== src/Server/Routes/Runs.antt =====
-- A server of internal/server over any number of requests.
use svidmint.Base.{◌≡◌, sym, ap, ◌∙◌, some, ◌++◌}
use mathlib.Core.List.{append_assoc}
use svidmint.Ca.{Crypto}
use svidmint.Ca.SelfSigned.{SelfSignedCa, get_bundle, jwks}
use svidmint.Server.Types.{Response, Server, EntryStore, Codec}
use svidmint.Server.Attest.{Outside}
use svidmint.Server.Publish.{handle_bundle, handle_jwks, with_bundle, with_jwks}
use svidmint.Server.Routes.{Mux, HttpCall, LogLine, serve_http}
use svidmint.Server.Routes.Kept.{IsKept, refl-IsKept, chosen-IsKept}

module _ (c : Crypto) (enc : Codec) (mux : Mux) where
  -- Requests one after another, each with the entries and the services of its time.
  pub data Serves (s : Server) : Server → Type 0 where
    idle : Serves s s
    then_serve :
        (s' s'' : Server) (store : EntryStore) (out : Outside) (call : HttpCall) (line : LogLine)
        (resp : Response)
        → Serves s s'
        → serve_http c enc mux store out s' call ≡ some (line, resp, s'')
        → Serves s s''

trans-IsKept : (s s' s'' : Server) → IsKept s s' → IsKept s' s'' → IsKept s s''
trans-IsKept s s' s'' k j = record {
  ca = j.ca ∙ k.ca;
  attestors = j.attestors ∙ k.attestors;
  added = j.added ++ k.added;
  metrics =
      j.metrics
      ∙ (ap (λ ms. j.added ++ ms) k.metrics ∙ sym (append_assoc j.added k.added s.metrics));
}

module _ (c : Crypto) (enc : Codec) (mux : Mux) where
  serve_http-IsKept :
      (s s' : Server) (store : EntryStore) (out : Outside) (call : HttpCall) (line : LogLine)
      (resp : Response)
      → serve_http c enc mux store out s call ≡ some (line, resp, s')
      → IsKept s s'
  unfolding serve_http
  serve_http-IsKept s s' store out call line resp h =
      chosen-IsKept c enc store out s mux call _ s' line resp h

  Serves-IsKept : (s s' : Server) → Serves c enc mux s s' → IsKept s s'
  Serves-IsKept s _ idle = refl-IsKept s
  Serves-IsKept s s'' (then_serve s' _ store out call line resp run h) =
      trans-IsKept s s' s'' (Serves-IsKept s s' run)
        (serve_http-IsKept s' s'' store out call line resp h)

  -- Whatever requests a server is sent, in whatever order and with whatever answers: it keeps its
  -- authority; its attestors stay the same in their order, with all their settings, and differ in
  -- their caches of keys alone; counts are only added; and so the bundle and the keys that it
  -- publishes are at every time those from the start.
  pub Serves-published :
      (s s' : Server)
      → Serves c enc mux s s'
      → IsKept s s'
        × (handle_bundle c enc s' ≡ handle_bundle c enc s)
        × (handle_jwks c enc s' ≡ handle_jwks c enc s)
  unfolding handle_bundle handle_jwks
  Serves-published s s' run =
      let kept = Serves-IsKept s s' run in
      (
        kept,
        ap (λ (ca : SelfSignedCa). with_bundle enc (get_bundle c ca)) kept.ca,
        ap (λ (ca : SelfSignedCa). with_jwks (jwks c enc.marshal_jwks ca)) kept.ca,
      )
