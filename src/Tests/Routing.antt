-- ===== src/Tests/Routing.antt =====
-- Requests to a server (internal/server/server.go) at concrete inputs.
use Prim.Native.String.{◌++◌}
use svidmint.Base.{◌≡◌, refl, some}
use svidmint.Base.Assoc.{lookup}
use svidmint.Server.{attest_body, write_json}
use svidmint.Server.Attest.Stored.{json_entry_store}
use svidmint.Server.Publish.{handle_bundle, handle_jwks}
use svidmint.Server.Routes.{Mux, pattern, HttpCall, LogLine, handle, serve_http}
use svidmint.Server.Routes.Kept.{IsKept}
use svidmint.Server.Routes.Runs.{idle, then_serve, Serves-published}
use svidmint.Tests.Toy.{toy}
use svidmint.Tests.Serving.{codec, store, out, server, served, answer, served_web}

abbrev by_name : Mux
by_name = record { choose = λ routes method path. pattern (method ++ (" " ++ path)) }

abbrev attest_call : HttpCall
attest_call = record { method = "POST"; path = "/v1/attest"; body = "{}" }

abbrev attest_line : LogLine
attest_line = record { method = "POST"; path = "/v1/attest"; status = 200 }

attest_routed :
    serve_http toy codec by_name (json_entry_store store) out server attest_call
    ≡ some (attest_line, write_json 200 (attest_body answer), served)
unfolding serve_http handle lookup write_json
attest_routed = rw served_web refl

Serves-published_example :
    IsKept server served
    × (handle_bundle toy codec served ≡ handle_bundle toy codec server)
    × (handle_jwks toy codec served ≡ handle_jwks toy codec server)
Serves-published_example = Serves-published toy codec by_name server served (
    then_serve server served (json_entry_store store) out attest_call attest_line
      (write_json 200 (attest_body answer)) idle attest_routed)
