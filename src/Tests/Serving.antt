-- ===== src/Tests/Serving.antt =====
-- The handlers of internal/server, and a restart of the authority, at concrete inputs.
use native.Mathlib.Decide.{ℕ_discrete}
use svidmint.Base.{
  String, ◌==◌, eq_iff, ◌≡◌, ◌≢◌, refl, true, Option, none, some, [], ◌∷◌, inl, inr, arith,
  Bool-cases, if◌then◌else◌,
}
use svidmint.Base.Int.{pos, scale, quot, wrap64, ◌+ℤ◌}
use svidmint.Base.Text.{cut, str_ltb}
use svidmint.Base.Assoc.{lookup, insert}
use svidmint.Glob.{path_match}
use svidmint.Ca.Ttl.{seconds, effective_ttl, compute_ttl}
use svidmint.Ca.SelfSigned.{
  check_id, workload_key, leaf_template, sign_x509_svid, validate_jwt_svid,
}
use svidmint.Entry.{RegistrationEntry}
use svidmint.Entry.Matcher.{all_selectors_match, better, match_step, match_loop, match_entries}
use svidmint.Entry.Matcher.Best.{IsBest}
use svidmint.Entry.JsonStore
use svidmint.Entry.JsonStore.{JsonStore, list}
use svidmint.Attestor.Jwks.{download_jwks}
use svidmint.Attestor.Deno
use svidmint.Attestor.Deno.{is_allowed_issuer}
use svidmint.Attestor.Registry
use svidmint.Attestor.Registry.{can_attest, attest_one, deno_oidc}
use svidmint.Server.{
  AttestResponse, ValidateRequest, ValidateResponse, text, attest_body, validate_body, Server,
  Codec, ec, attestation_total, attestation_duration, svid_issued_total, svid_validated_total,
  write_json,
}
use svidmint.Server.Attest.{Outside, refusal, issue, encode_private_key, handle_attest}
use svidmint.Server.Attest.Served.{IsServed, handle_attest-IsServed}
use svidmint.Server.Attest.Ways.{Outcome}
use svidmint.Server.Attest.Counts.{handle_attest-Outcome}
use svidmint.Server.Attest.Stored.{json_entry_store, handle_attest-IsBest}
use svidmint.Server.Validate.{read, out_of_fuel, read_certs, validate_jwt, handle_validate}
use svidmint.Server.Validate.Sound.{Shortens, IsValid, read_certs-enough, handle_validate-IsValid}
use svidmint.Ca.{Der, Certificate, Crypto}
use svidmint.Tests.Toy.{toy, web_template, toy-ReadsBack, authority, toy_draws, web}
use svidmint.Tests.Sunny.{sunny}
use svidmint.Tests.Issuers.{deno}

abbrev pub codec : Codec
codec = record {
  json_attest_request = λ body. some (record {
    evidence_type = "deno_oidc";
    evidence = "ZQ==";
    svid_type = "x509";
    audience = [];
    csr = "";
  });
  json_validate_request = λ body. some (record { svid_type = "jwt"; svid = "token" });
  base64_decode = λ s. some "e";
  base64_encode = λ s. s;
  base64_raw_url = λ s. s;
  pem_encode = λ label der. der;
  pem_decode = λ s. none;
  marshal_jwks = λ keys. some "keys";
  marshal_ec_private_key = λ key. some key;
  format_rfc3339 = λ t. "date";
  unix = λ t. t;
  key_parts = λ key. ec "P-256" "x" "y";
}

abbrev pub web_entry : RegistrationEntry
web_entry = record {
  id = "web";
  spiffe_id = web;
  attestor = "deno_oidc";
  selectors = "sub:proj*" ∷ [];
  ttl = pos 600;
}

abbrev pub store : JsonStore
store = record { path = "f"; entries = ("web", web_entry) ∷ [] }

abbrev pub out : Outside
out = record { world = sunny; draws = toy_draws }

abbrev pub server : Server
server = record { ca = authority; attestors = deno_oidc deno ∷ []; metrics = [] }

abbrev pub served : Server
served = record server {
  metrics =
      svid_issued_total "x509" "deno_oidc"
      ∷ attestation_total "deno_oidc" "success"
      ∷ attestation_duration "deno_oidc"
      ∷ [];
}

abbrev pub answer : AttestResponse
answer = record {
  spiffe_id = web;
  svid_type = "x509";
  svid = some (record {
    cert_chain = "leaf" ∷ "intermediate" ∷ [];
    private_key = "key";
    expires_at = "date";
  });
  expires_at = "";
  token = "";
}

pub served_web :
    handle_attest toy codec (json_entry_store store) out server "{}"
    ≡ (write_json 200 (attest_body answer), served)
unfolding handle_attest refusal issue encode_private_key sign_x509_svid check_id workload_key
    leaf_template seconds effective_ttl compute_ttl scale quot wrap64 ◌+ℤ◌ ℕ_discrete
    JsonStore.match_ list match_entries match_loop match_step all_selectors_match better path_match
    lookup insert cut str_ltb Registry.attest attest_one can_attest Deno.attest is_allowed_issuer
    download_jwks
served_web = refl

handle_attest-IsServed_example :
    IsServed toy codec (json_entry_store store) out server served "{}" answer
handle_attest-IsServed_example =
    handle_attest-IsServed toy codec (json_entry_store store) out served answer server "{}"
      toy-ReadsBack served_web

handle_attest-IsBest_example :
    (s : IsServed toy codec (json_entry_store store) out server served "{}" answer)
    × (answer.spiffe_id ≡ s.entry.spiffe_id)
    × IsBest (list store) s.req.evidence_type s.result.claims s.entry
handle_attest-IsBest_example =
    handle_attest-IsBest toy codec store out server served answer "{}" toy-ReadsBack served_web

handle_attest-Outcome_example :
    Outcome toy codec
      (json_entry_store store)
      out
      server
      "{}"
      (handle_attest toy codec (json_entry_store store) out server "{}")
handle_attest-Outcome_example =
    handle_attest-Outcome toy codec (json_entry_store store) out server toy-ReadsBack "{}"

abbrev valid_web : ValidateResponse
valid_web = record { valid = true; spiffe_id = web; expires_at = pos 0; error = text "" }

abbrev validated : Server
validated = record server { metrics = svid_validated_total "jwt" "true" ∷ [] }

web_validated :
    handle_validate toy codec server "{}" ≡ (write_json 200 (validate_body valid_web), validated)
unfolding handle_validate validate_jwt validate_jwt_svid
web_validated = refl

handle_validate-IsValid_example :
    (req : ValidateRequest) × (codec.json_validate_request "{}" ≡ some req)
    × IsValid toy codec server web req
handle_validate-IsValid_example =
    handle_validate-IsValid toy codec server validated valid_web "{}" web_validated refl

-- texts of one and of two blocks
abbrev take_block : String → Option (Der × String)
take_block s = if s == "bb" then some ("der", "b") else if s == "b" then some ("der", "") else none

abbrev block_codec : Codec
block_codec = record codec { pem_decode = take_block }

block_codec-Shortens : Shortens block_codec
block_codec-Shortens = record {
  shorter = λ pem_data der rest h. elim (Bool-cases (pem_data == "bb")) [
    | inl two ↦
        let same : "b" ≡ rest = ground arith in
        rw ((eq_iff pem_data "bb").0 two, ← same) (omega arith)
    | inr not_two ↦ elim (Bool-cases (pem_data == "b")) [
      | inl one ↦
          let same : "" ≡ rest = ground arith in
          rw ((eq_iff pem_data "b").0 one, ← same) (omega arith)
      | inr neither ↦ absurd (ground arith)
    ]
  ];
}

abbrev block : Certificate
block = record { template = web_template; public_key = "p"; raw = "der" }

abbrev block_reader : Crypto
block_reader = record toy {
  parse_certificate = λ der. some (record { template = web_template; public_key = "p"; raw = der });
}

two_blocks : read_certs block_reader block_codec 3 "bb" ≡ read (block ∷ block ∷ [])
unfolding read_certs
two_blocks = refl

read_certs-enough_example : read_certs block_reader block_codec 3 "bb" ≢ out_of_fuel
read_certs-enough_example =
    read_certs-enough block_reader block_codec 3 "bb" block_codec-Shortens (omega arith)
