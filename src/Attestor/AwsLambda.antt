-- ===== src/Attestor/AwsLambda.antt =====
-- internal/attestor/aws_lambda.go
pub mod Endpoint
pub mod Sound
use Prim.Native.String.{◌++◌}
use svidmint.Base.{
  ℕ, ◌*◌, ◌==◌, eqb, leb, String, Char, code, Bool, true, false, not, ◌&&◌, ◌||◌, Option, none,
  some, List, [], ◌∷◌, Result, ok, err, ◌>>=◌, ◌>>◌, guard, or_err, if◌then◌else◌, is_empty,
}
use svidmint.Base.Int.{ℤ, pos, ltb_ℤ, ◌-ℤ◌, ◌+ℤ◌}
use svidmint.Base.Text.{strip_prefix, has_prefix, split}
use svidmint.Base.Assoc.{lookup, insert}
use svidmint.Ca.{Time, Duration, second}
use svidmint.Attestor.Types.{
  AttestationResult, AttestError, bad_evidence, bad_headers, bad_endpoint, missing_date, bad_date,
  too_old, too_far_ahead, bad_request, request_failed, unreadable_response, bad_status,
  bad_response, account_not_allowed,
}
use svidmint.Attestor.Calls.{HttpRequest, HttpResponse, StsEvidence, CallerIdentity, World}
use svidmint.Entry.{Claims}

pub record AwsLambdaConfig : Type 0 where
  pub allowed_account_ids : List String
  pub allowed_regions : List String
  pub sts_endpoint_override : String

-- `[a-z0-9-]`
unfoldable pub is_label_char : ℕ → Bool
is_label_char c = leb b'a' c && leb c b'z' || leb b'0' c && leb c b'9' || eqb c b'-'

-- `[a-z0-9-]*\.amazonaws\.com/$`; no label character is a dot.
unfoldable pub label_then_domain : String → Bool
unfolding is_label_char
label_then_domain String.[] = false
label_then_domain (String.◌∷◌ c s) =
    let rest = label_then_domain s in
    if is_label_char (code c) then rest else String.◌∷◌ c s == ".amazonaws.com/"

-- `(\.[a-z0-9-]+)\.amazonaws\.com/$`: a dot, one character of the label, and the others
unfoldable pub region_then_domain : String → Bool
unfolding label_then_domain
region_then_domain (String.◌∷◌ dot (String.◌∷◌ c s)) =
    eqb (code dot) b'.' && is_label_char (code c) && label_then_domain s
region_then_domain s = false

-- `stsEndpointPattern`: `^https://sts(\.[a-z0-9-]+)?\.amazonaws\.com/$`
unfoldable pub sts_endpoint_matches : String → Bool
unfolding region_then_domain
sts_endpoint_matches url = elim (strip_prefix "https://sts" url) [
  | none ↦ false
  | some rest ↦ rest == ".amazonaws.com/" || region_then_domain rest
]

-- `validateEndpoint`
unfoldable pub validate_endpoint : AwsLambdaConfig → String → Bool
validate_endpoint config url =
    if config.sts_endpoint_override == ""
    then sts_endpoint_matches url
    else has_prefix url config.sts_endpoint_override

abbrev pub or_empty : Option String → String
or_empty none = ""
or_empty (some s) = s

-- `parts[i]` where it is there; `parts` as `strings.Split` gives it
abbrev pub part : List String → ℕ → Option String
part [] i = none
part (x ∷ xs) ℕ.zero = some x
part (x ∷ xs) (ℕ.suc i) = part xs i

-- `parseARN`
unfoldable pub parse_arn : String → String × String
parse_arn arn =
    let parts = split b':' arn in
    let function_name : String = elim (part parts 6) [
      | none ↦ ""
      | some name ↦ if or_empty (part parts 5) == "function" then name else ""
    ] in
    (or_empty (part parts 3), function_name)

-- `req.Header.Set` for each header, and the default content type.
unfoldable pub set_headers : World → List (String × String) → Claims → Claims
set_headers w [] headers = headers
set_headers w ((k, v) ∷ more) headers = set_headers w more (insert (w.canonical_header k) v headers)

abbrev pub content_type : Claims → Claims
content_type headers =
    if or_empty (lookup "Content-Type" headers) == ""
    then insert "Content-Type" "application/x-www-form-urlencoded" headers
    else headers

abbrev pub five_minutes : Duration
five_minutes = pos (5 * 60 * second)

abbrev pub one_minute : Duration
one_minute = pos (60 * second)

abbrev pub one_hour : Duration
one_hour = pos (3600 * second)

-- `Attest` up to the request that it sends: the request, and the time of its signature.
unfoldable pub prepare : AwsLambdaConfig → World → String → Result AttestError (HttpRequest × Time)
prepare config w evidence = do
  ev ← or_err (w.json_sts_evidence evidence) bad_evidence
  headers ← or_err (w.json_headers ev.headers) bad_headers
  guard (validate_endpoint config ev.url) bad_endpoint
  amz_date ← or_err (lookup "X-Amz-Date" headers) missing_date
  ts ← or_err (w.parse_amz_date amz_date) bad_date
  guard (not (ltb_ℤ five_minutes (w.now -ℤ ts))) too_old
  guard (not (ltb_ℤ one_minute (ts -ℤ w.now))) too_far_ahead
  guard (w.can_request ev.method ev.url) bad_request
  ok (
    record {
      method = ev.method;
      url = ev.url;
      headers = content_type (set_headers w headers []);
      body = ev.body;
    },
    ts,
  )

abbrev pub contains : String → List String → Bool
contains x [] = false
contains x (y ∷ ys) = y == x || contains x ys

-- `Attest` from the answer on
unfoldable pub conclude :
    AwsLambdaConfig → World → Time → HttpResponse → Result AttestError AttestationResult
unfolding parse_arn
conclude config w ts resp = do
  body ← or_err resp.body unreadable_response
  guard (eqb resp.status_code 200) bad_status
  sts_resp ← or_err (w.xml_caller_identity body) bad_response
  guard
      (is_empty config.allowed_account_ids || contains sts_resp.account config.allowed_account_ids)
      account_not_allowed
  let arn = sts_resp.arn
  ok (record {
    claims =
        ("aws.account_id", sts_resp.account)
        ∷ ("aws.arn", arn)
        ∷ ("aws.region", (parse_arn arn).0)
        ∷ ("aws.function_name", (parse_arn arn).1)
        ∷ [];
    expires_at = some (ts +ℤ one_hour);
    raw_identity = arn;
  })

-- `Attest`
unfoldable pub attest : AwsLambdaConfig → World → String → Result AttestError AttestationResult
unfolding prepare conclude
attest config w evidence = do
  (req, ts) ← prepare config w evidence
  resp ← or_err (w.http_do req) request_failed
  conclude config w ts resp
