-- ===== src/Server/Routes.antt =====
-- internal/server/server.go and the logging of middleware.go: how a request comes to its handler.
pub mod Kept
pub mod Runs
use svidmint.Base.{ℕ, String, ◌==◌, not, ◌&&◌, Option, none, some, List, [], ◌∷◌, if◌then◌else◌}
use svidmint.Base.Assoc.{lookup}
use svidmint.Base.Int.{ℤ}
use svidmint.Ca.{Crypto, Time, Duration}
use svidmint.Config.{Config}
use svidmint.Server.Types.{Response, Server, EntryStore, Codec}
use svidmint.Server.Attest.{Outside, handle_attest}
use svidmint.Server.Validate.{handle_validate}
use svidmint.Server.Publish.{handle_bundle, handle_jwks, handle_health}

-- the methods of `Server` that handle requests
pub data Handler : Type 0 where
  health bundle validate jwks attest : Handler

-- `routes`
abbrev pub routes : List (String × Handler)
routes =
    ("GET /v1/health", health)
    ∷ ("GET /v1/bundle", bundle)
    ∷ ("POST /v1/validate", validate)
    ∷ ("GET /v1/jwks", jwks)
    ∷ ("POST /v1/attest", attest)
    ∷ []

-- What a `ServeMux` of net/http does with a method and a path: it takes one of the patterns, or
-- answers itself.
pub data Choice : Type 0 where
  pattern : String → Choice
  own : Response → Choice

pub record Mux : Type 0 where
  pub choose : List (String × Handler) → String → String → Choice

pub record HttpCall : Type 0 where
  pub method : String
  pub path : String
  pub body : String

-- An entry of the log.
pub record LogLine : Type 0 where
  pub method : String
  pub path : String
  pub status : ℕ

module _ (c : Crypto) (enc : Codec) (mux : Mux) (store : EntryStore) where
  unfoldable pub handle : Handler → Outside → Server → String → Response × Server
  handle health out s body = (handle_health s, s)
  handle bundle out s body = (handle_bundle c enc s, s)
  handle validate out s body = handle_validate c enc s body
  handle jwks out s body = (handle_jwks c enc s, s)
  handle attest out s body = handle_attest c enc store out s body

  -- no pattern of a mux is without a handler
  abbrev pub handle_pattern :
      Option Handler → Outside → Server → String → Option (Response × Server)
  handle_pattern none out s body = none
  handle_pattern (some h) out s body = some (handle h out s body)

  abbrev pub chosen : Choice → Outside → Server → String → Option (Response × Server)
  chosen (own resp) out s body = some (resp, s)
  chosen (pattern p) out s body = handle_pattern (lookup p routes) out s body

  abbrev pub logged : HttpCall → Option (Response × Server) → Option (LogLine × Response × Server)
  logged call none = none
  logged call (some (resp, s)) =
      some (record { method = call.method; path = call.path; status = resp.status }, resp, s)

  -- `ServeHTTP`: the mux behind `loggingMiddleware`, whose `statusWriter` has the status that was
  -- written, or 200 where none was; the duration is not modelled.
  unfoldable pub serve_http : Outside → Server → HttpCall → Option (LogLine × Response × Server)
  unfolding handle
  serve_http out s call =
      logged call (chosen (mux.choose routes call.method call.path) out s call.body)

-- What `Start` listens on.
pub data Listening : Type 0 where
  listen_tls : String → String → String → Listening
  listen : String → Listening

-- `Start`
unfoldable pub start : Config → Listening
start cfg =
    if not (cfg.server.tls.cert_file == "") && not (cfg.server.tls.key_file == "")
    then listen_tls cfg.server.listen cfg.server.tls.cert_file cfg.server.tls.key_file
    else listen cfg.server.listen
