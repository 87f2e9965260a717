-- ===== src/Tests/Sunny.antt =====
-- The services of the attestors (internal/attestor) as they are in the tests.
use svidmint.Base.{true, some, [], ◌∷◌}
use svidmint.Base.Int.{pos}
use svidmint.Attestor.{Payload, World, SamePayload}
use svidmint.Tests.Toy.{noon}

abbrev pub payload : Payload
payload = record {
  issuer = "https://team.cloudflareaccess.com";
  subject = "project";
  audience = "api" ∷ [];
  expiry = some (pos 1_700_000_600_000_000_000);
  field = λ name. "org/repo";
}

-- Every service answers.
abbrev pub sunny : World
sunny = record {
  now = noon;
  can_request = λ method url. true;
  http_do = λ req. some (record { status_code = 200; body = some "body" });
  canonical_header = λ name. name;
  json_field = λ name evidence. some "token";
  json_sts_evidence = λ evidence. some (record {
    method = "POST";
    url = "https://sts.eu-west-1.amazonaws.com/";
    headers = "headers";
    body = "";
  });
  json_headers = λ headers. some (("X-Amz-Date", "20231114T221320Z") ∷ []);
  json_key_set = λ body. some "keys";
  xml_caller_identity = λ body.
      some
        (record { account = "12"; arn = "arn:aws:lambda:eu-west-1:12:function:f"; user_id = "u" });
  parse_amz_date = λ date. some noon;
  parse_signed = λ token algorithms. some "tok";
  unsafe_claims = λ tok. some payload;
  verify_claims = λ tok keys. some payload;
  validate = λ claims issuer now. true;
}

pub sunny-SamePayload : SamePayload sunny
sunny-SamePayload = record { same_payload = λ tok keys u v hu hv. cc }
