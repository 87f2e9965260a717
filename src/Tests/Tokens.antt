-- ===== src/Tests/Tokens.antt =====
-- A JWT SVID that internal/server issues, and its validation, at concrete inputs.
use mathlib.Core.List.{Mem, not-mem-nil, mem-cons, mem-cons_self}
use mathlib.Core.HLevel.{⊥_prop}
use mathlib.Core.Logic.Or
use native.Mathlib.Decide.{ℕ_discrete}
use svidmint.Base.{
  String, ◌==◌, ◌≡◌, refl, ap, ◌∙◌, false, Option, none, some, List, [], ◌∷◌, arith, eq_iff, inl,
  inr, Bool-cases,
}
use svidmint.Base.Int.{pos, scale, quot, wrap64, ◌+ℤ◌}
use svidmint.Base.Text.{cut, str_ltb}
use svidmint.Base.Assoc.{lookup, insert}
use svidmint.Glob.{path_match}
use svidmint.Ca.{Crypto, ReadsBack}
use svidmint.Ca.SelfSigned.{check_id, sign_jwt_svid, validate_jwt_svid, validating_jwt}
use svidmint.Ca.Ttl.{seconds, effective_ttl, compute_ttl}
use svidmint.Entry.Matcher.{all_selectors_match, better, match_step, match_loop, match_entries}
use svidmint.Entry.JsonStore
use svidmint.Entry.JsonStore.{list}
use svidmint.Attestor.{AttestRequest}
use svidmint.Attestor.Jwks.{download_jwks}
use svidmint.Attestor.Deno
use svidmint.Attestor.Deno.{is_allowed_issuer}
use svidmint.Attestor.Registry
use svidmint.Attestor.Registry.{can_attest, attest_one}
use svidmint.Server.{
  AttestResponse, ValidateResponse, of_ca, attest_body, validate_body, Server, Codec,
  attestation_total, attestation_duration, svid_issued_total, svid_validated_total, write_json,
}
use svidmint.Server.Attest.{refusal, issue, handle_attest}
use svidmint.Server.Attest.Stored.{json_entry_store}
use svidmint.Server.Validate.{validate_jwt, handle_validate}
use svidmint.Server.Validate.Issued.{ChecksAudience, handle_validate-eq-false}
use svidmint.Tests.Toy.{toy, toy-ReadsBack, web, web_id, some_if}
use svidmint.Tests.Serving.{codec, store, out, server}

abbrev first_of : List String → Option String
first_of [] = none
first_of (a ∷ rest) = some a

abbrev is_first : String → List String → Option String
is_first token [] = none
is_first token (a ∷ rest) = some_if (token == a) token

-- A token is its first audience.
abbrev strict : Crypto
strict = record toy {
  sign_jwt = λ key id claims. first_of claims.aud;
  verify_jwt = λ token td authorities audience. elim (is_first token audience) [
    | none ↦ none
    | some _ ↦ some web_id
  ];
}

strict-ReadsBack : ReadsBack strict
strict-ReadsBack = record { read_back = toy-ReadsBack.read_back; uri_text = toy-ReadsBack.uri_text }

first_of-mem : (aud : List String) (a : String) → first_of aud ≡ some a → Mem a aud
first_of-mem [] a h = absurd (cc)
first_of-mem (b ∷ rest) a h = let same : b ≡ a = cc in rw same mem-cons_self

strict-ChecksAudience : ChecksAudience strict
strict-ChecksAudience = record {
  checked = λ key key_id token td audience claims authorities id signed verified.
      elim (Bool-cases (token == audience)) [
        | inl e ↦ first_of-mem claims.aud audience (signed ∙ ap some ((eq_iff token audience).0 e))
        | inr e ↦ absurd (ground arith)
      ];
}

abbrev jwt_request : AttestRequest
jwt_request = record {
  evidence_type = "deno_oidc";
  evidence = "ZQ==";
  svid_type = "jwt";
  audience = "api" ∷ [];
  csr = "";
}

abbrev jwt_codec : Codec
jwt_codec = record codec {
  json_attest_request = λ body. some jwt_request;
  json_validate_request = λ body. some (record { svid_type = "jwt"; svid = "api" });
}

abbrev jwt_answer : AttestResponse
jwt_answer = record {
  spiffe_id = web;
  svid_type = "jwt";
  svid = none;
  expires_at = "date";
  token = "api";
}

abbrev issued : Server
issued = record server {
  metrics =
      svid_issued_total "jwt" "deno_oidc"
      ∷ attestation_total "deno_oidc" "success"
      ∷ attestation_duration "deno_oidc"
      ∷ [];
}

jwt_issued :
    handle_attest strict jwt_codec (json_entry_store store) out server "{}"
    ≡ (write_json 200 (attest_body jwt_answer), issued)
unfolding handle_attest refusal issue sign_jwt_svid check_id seconds effective_ttl compute_ttl scale
    quot wrap64 ◌+ℤ◌ ℕ_discrete JsonStore.match_ list match_entries match_loop match_step
    all_selectors_match better path_match lookup insert cut str_ltb Registry.attest attest_one
    can_attest Deno.attest is_allowed_issuer download_jwks
jwt_issued = refl

abbrev refused : ValidateResponse
refused = record { valid = false; spiffe_id = ""; expires_at = pos 0; error = of_ca validating_jwt }

abbrev refused_once : Server
refused_once = record server { metrics = svid_validated_total "jwt" "false" ∷ [] }

jwt_refused :
    handle_validate strict jwt_codec server "{}"
    ≡ (write_json 200 (validate_body refused), refused_once)
unfolding handle_validate validate_jwt validate_jwt_svid
jwt_refused = refl

api_not_empty : ◌≡◌ {A = String} "" "api" → ⊥
api_not_empty e = ground (arith, eq_iff "" "api")

api_only : (request : AttestRequest) → some jwt_request ≡ some request → Mem "" request.audience → ⊥
api_only request h m =
    let same : request ≡ jwt_request = cc in
    let named : Mem "" ("api" ∷ []) = rw same at m in
    Or.elim ⊥_prop (mem-cons.0 named) api_not_empty (λ later. not-mem-nil later)

handle_validate-eq-false_example : refused.valid ≡ false
handle_validate-eq-false_example =
    handle_validate-eq-false strict jwt_codec strict-ReadsBack strict-ChecksAudience
      (json_entry_store store) out server issued jwt_answer "{}" server refused_once refused "{}"
      (record { svid_type = "jwt"; svid = "api" }) jwt_issued refl api_only refl refl refl
      jwt_refused
