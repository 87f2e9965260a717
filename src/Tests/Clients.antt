-- ===== src/Tests/Clients.antt =====
-- The client library (sdk/go) at concrete inputs: a workload with a Cloudflare token, and a server.

use native.Mathlib.Decide.{ℕ_discrete}
use svidmint.Base.{String, ◌≡◌, refl, true, false, Option, none, some, [], ◌∷◌, ok}
use svidmint.Base.Int.{pos, scale, quot, wrap64, ◌+ℤ◌, ◌-ℤ◌}
use svidmint.Base.Text.{cut, str_ltb}
use svidmint.Base.Assoc.{lookup, insert}
use svidmint.Glob.{path_match}
use svidmint.Ca.{Der}
use svidmint.Ca.SelfSigned.{check_id, workload_key, leaf_template, sign_x509_svid}
use svidmint.Ca.Ttl.{until, seconds, effective_ttl, compute_ttl}
use svidmint.Entry.Matcher.{all_selectors_match, better, match_step, match_loop, match_entries}
use svidmint.Entry.JsonStore
use svidmint.Entry.JsonStore.{list}
use svidmint.Attestor.Jwks.{download_jwks}
use svidmint.Attestor.Deno
use svidmint.Attestor.Deno.{is_allowed_issuer}
use svidmint.Attestor.Registry
use svidmint.Attestor.Registry.{can_attest, attest_one}
use svidmint.Server
use svidmint.Server.{AttestResponse, Codec, attest_body, write_json}
use svidmint.Server.Attest.{refusal, issue, encode_private_key, handle_attest}
use svidmint.Server.Attest.Stored.{json_entry_store}
use svidmint.Server.Attest.Served.{IsServed}
use svidmint.Sdk.{X509SvidResponse, Network, Formats, EvidenceJson}
use svidmint.Sdk.Attestors.{gather_evidence, evidence_type, cloudflare}
use svidmint.Sdk.Client.{
  Client, with_server_url, with_attestor, apply, apply_all, new_client, do_post, prepare_request,
  read_response, attest_x509, get_bundle,
}
use svidmint.Sdk.Source.{
  X509Source, cancel, mark_closed, parse_certs, parse_svid_response, parse_bundle_response, fetch,
  refresh, store_both, new_x509_source, next_wait,
}
use svidmint.Sdk.Source.Loop.{Loop, start, next, look, cancels, closes, by_loop}
use svidmint.Sdk.Source.Current.{Answers, Reach-Answers}
use svidmint.Sdk.Source.Waits.{IsWait, next_wait-IsWait}
use svidmint.Sdk.Accepts.{Interop, IsAccepted, read_answer, handle_attest-IsAccepted}
use svidmint.Tests.Toy.{toy, toy-ReadsBack, authority, web_leaf, noon, web, web_id}
use svidmint.Tests.Serving.{codec, store, out, server, served, answer}

abbrev sdk_answer : X509SvidResponse
sdk_answer = record {
  spiffe_id = web;
  svid = record { cert_chain = "Pleaf" ∷ []; private_key = "Pkey"; expires_at = "date" };
}

abbrev tail : String → Option Der
tail String.[] = none
tail (String.◌∷◌ c s) = some s

abbrev formats : Formats String
formats = record {
  base64_encode = λ s. s;
  json_attest_request = λ req. some "request";
  json_x509_response = λ body. some sdk_answer;
  json_jwt_response = λ body. none;
  json_bundle_response = λ body. some (record {
    trust_domain = "td";
    x509_authorities = "Pleaf" ∷ [];
    jwt_authorities = [];
    refresh_hint = pos 300;
    sequence_number = pos 1;
  });
  pem_decode = tail;
  parse_ec_private_key = λ der. some der;
  x509_key_pair = λ chain key. some chain;
}

abbrev evidence_json : EvidenceJson
evidence_json = record { marshal_field = λ name value. some value; value_of = λ body. some body }

abbrev network : Network
network = record {
  now = noon;
  getenv = λ name. "";
  can_request = λ method url. true;
  http_do = λ client req. some (record { status_code = 200; body = some "body" });
}

abbrev workload : Client
workload = record {
  server_url = "http://svidmint";
  attestor = some (cloudflare "token");
  http_client = "default";
}

abbrev source : X509Source
source = record {
  client = workload;
  svid = some (record { id = web_id; certificates = web_leaf ∷ []; private_key = "key" });
  bundle = some (record { trust_domain = "td"; x509_authorities = web_leaf ∷ [] });
  closed = false;
  cancelled = false;
}

workload_made :
    new_client (with_server_url "http://svidmint" ∷ with_attestor (some (cloudflare "token")) ∷ [])
    ≡ ok workload
unfolding new_client apply_all apply
workload_made = refl

source_made :
    new_x509_source toy formats evidence_json network
      (with_server_url "http://svidmint" ∷ with_attestor (some (cloudflare "token")) ∷ [])
    ≡ ok source
unfolding new_x509_source new_client apply_all apply refresh fetch store_both attest_x509
    prepare_request do_post read_response gather_evidence evidence_type parse_svid_response
    parse_certs get_bundle parse_bundle_response
source_made = refl

-- the loop looks, and the source is closed meanwhile
Reach-Answers_example :
    Answers toy formats evidence_json (network ∷ []) workload (mark_closed (cancel source))
unfolding cancel mark_closed
Reach-Answers_example =
    Reach-Answers toy formats evidence_json network (network ∷ [])
      (with_server_url "http://svidmint" ∷ with_attestor (some (cloudflare "token")) ∷ []) workload
      source (mark_closed (cancel source)) _ workload_made source_made
      (next (next (next start (by_loop (look noon source))) (cancels _ _)) (closes _ _ refl))

abbrev closed_source : X509Source
closed_source = record source { closed = true; cancelled = true }

five_minutes_left : next_wait noon source ≡ some (pos 300_000_000_000)
unfolding next_wait until quot ◌-ℤ◌
five_minutes_left = refl

next_wait-IsWait_example : IsWait noon source (pos 300_000_000_000)
next_wait-IsWait_example = next_wait-IsWait noon source (pos 300_000_000_000) five_minutes_left

-- PEM as one letter before the DER
abbrev lettered : Codec
lettered = record codec { pem_encode = λ label der. String.◌∷◌ "P" der }

lettered-Interop : Interop lettered formats
lettered-Interop = record {
  pem = λ label der. refl;
  pem_text = λ label der e. cc;
  key_der = λ key. key;
  marshals = λ key. refl;
  parses = λ key. refl;
}

abbrev leaf_server : Server.Server
leaf_server = record server { ca = record authority { intermediate_cert = web_leaf } }

abbrev leaf_data : Server.X509SvidData
leaf_data = record {
  cert_chain = "Pleaf" ∷ "Pleaf" ∷ [];
  private_key = "Pkey";
  expires_at = "date";
}

abbrev leaf_answer : AttestResponse
leaf_answer = record answer { svid = some leaf_data }

abbrev leaf_served : Server.Server
leaf_served = record served { ca = leaf_server.ca }

leaf_web :
    handle_attest toy lettered (json_entry_store store) out leaf_server "{}"
    ≡ (write_json 200 (attest_body leaf_answer), leaf_served)
unfolding handle_attest refusal issue encode_private_key sign_x509_svid check_id workload_key
    leaf_template seconds effective_ttl compute_ttl scale quot wrap64 ◌+ℤ◌ ℕ_discrete
    JsonStore.match_ list match_entries match_loop match_step all_selectors_match better path_match
    lookup insert cut str_ltb Registry.attest attest_one can_attest Deno.attest is_allowed_issuer
    download_jwks
leaf_web = refl

handle_attest-IsAccepted_example :
    (s : IsServed toy lettered
      (json_entry_store store)
      out
      leaf_server
      leaf_served
      "{}"
      leaf_answer)
    × IsAccepted toy lettered formats toy-ReadsBack lettered-Interop leaf_server s.entry
        (read_answer leaf_answer leaf_data)
handle_attest-IsAccepted_example =
    handle_attest-IsAccepted toy lettered formats toy-ReadsBack lettered-Interop
      (json_entry_store store) out leaf_server leaf_served leaf_answer "{}" leaf_data refl leaf_web
      refl
