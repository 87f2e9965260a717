-- ===== src/Attestor/AwsLambda/Sound.antt =====
-- What `Attest` (aws_lambda.go) has checked when it returns a result.
use svidmint.Base.{
  String, ◌≡◌, ◌⊎◌, sym, ap, ◌∙◌, true, not, some, List, [], ◌∷◌, ok, or_err_ok, guard_ok, arith,
}
use mathlib.Core.List.{Mem}
use svidmint.Base.Int.{ltb_ℤ, ◌-ℤ◌, ◌+ℤ◌, ◌≤ℤ◌}
use svidmint.Base.Assoc.{lookup}
use svidmint.Ca.{Time}
use svidmint.Attestor.Types.{AttestationResult}
use svidmint.Entry.{Claims}
use svidmint.Attestor.Calls.{StsEvidence, HttpRequest, HttpResponse, CallerIdentity, World}
use svidmint.Attestor.AwsLambda.{
  AwsLambdaConfig, validate_endpoint, prepare, parse_arn, content_type, set_headers, five_minutes,
  one_minute, one_hour,
}

-- The request that is sent has the method, the URL and the body that the evidence describes, and
-- goes to an allowed endpoint; its header X-Amz-Date, the time of its signature, is at most five
-- minutes old and at most one minute ahead.
pub record IsFreshRequest (config : AwsLambdaConfig) (w : World) (evidence : String)
    (req : HttpRequest) (ts : Time) : Type 0 where
  pub described : StsEvidence
  pub decoded : w.json_sts_evidence evidence ≡ some described
  pub headers : Claims
  pub headers_decoded : w.json_headers described.headers ≡ some headers
  pub amz_date : String
  pub dated : lookup "X-Amz-Date" headers ≡ some amz_date
  pub signed_at : w.parse_amz_date amz_date ≡ some ts
  pub method : req.method ≡ described.method
  pub url : req.url ≡ described.url
  pub body : req.body ≡ described.body
  pub sent : req.headers ≡ content_type (set_headers w headers [])
  pub endpoint : validate_endpoint config req.url ≡ true
  pub recent : w.now -ℤ ts ≤ℤ five_minutes
  pub near : ts -ℤ w.now ≤ℤ one_minute

-- What AWS said, and what became of it.
pub record IsCaller (config : AwsLambdaConfig) (w : World) (ts : Time) (resp : HttpResponse)
    (result : AttestationResult) : Type 0 where
  pub body : String
  pub caller : CallerIdentity
  pub read : resp.body ≡ some body
  pub status_ok : resp.status_code ≡ 200
  pub parsed : w.xml_caller_identity body ≡ some caller
  pub allowed : (config.allowed_account_ids ≡ []) ⊎ Mem caller.account config.allowed_account_ids
  pub claims :
      result.claims
      ≡ ("aws.account_id", caller.account)
        ∷ ("aws.arn", caller.arn)
        ∷ ("aws.region", (parse_arn caller.arn).0)
        ∷ ("aws.function_name", (parse_arn caller.arn).1)
        ∷ []
  pub expiry : result.expires_at ≡ some (ts +ℤ one_hour)

module _ (config : AwsLambdaConfig) (w : World) where
  -- No request leaves for a URL that `validateEndpoint` refuses, nor for a stale or future date.
  pub prepare-IsFreshRequest :
      (evidence : String) (req : HttpRequest) (ts : Time)
      → prepare config w evidence ≡ ok (req, ts)
      → IsFreshRequest config w evidence req ts
  unfolding prepare
  prepare-IsFreshRequest evidence req ts h =
      or_err_ok (w.json_sts_evidence evidence) _ _ h λ ev decoded h₁.
        or_err_ok (w.json_headers ev.headers) _ _ h₁ λ headers headers_decoded h₂.
          guard_ok (validate_endpoint config ev.url) _ _ h₂ λ endpoint h₃.
            or_err_ok (lookup "X-Amz-Date" headers) _ _ h₃ λ amz_date dated h₄.
              or_err_ok (w.parse_amz_date amz_date) _ _ h₄ λ ts' signed h₅.
                guard_ok (not (ltb_ℤ five_minutes (w.now -ℤ ts'))) _ _ h₅ λ recent h₆.
                  guard_ok (not (ltb_ℤ one_minute (ts' -ℤ w.now))) _ _ h₆ λ near h₇.
                    guard_ok (w.can_request ev.method ev.url) _ _ h₇ λ _ h₈.
                      let same_url : req.url ≡ ev.url = ground arith in
                      let same_time : ts ≡ ts' = ground arith in
                      record {
                        described = ev;
                        decoded = decoded;
                        headers = headers;
                        headers_decoded = headers_decoded;
                        amz_date = amz_date;
                        dated = dated;
                        signed_at = signed ∙ ap some (sym same_time);
                        method = ground arith;
                        url = same_url;
                        body = ground arith;
                        sent = ground arith;
                        endpoint = rw same_url endpoint;
                        recent = rw same_time (ground arith);
                        near = rw same_time (ground arith);
                      }
