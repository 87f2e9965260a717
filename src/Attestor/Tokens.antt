-- ===== src/Attestor/Tokens.antt =====
-- The token that the evidence of an OIDC or Access attestor carries (github_oidc.go,
-- cloudflare_workers.go, deno_deploy.go).
use svidmint.Base.{String, ◌==◌, eq_iff, ◌≡◌, ◌≢◌, not, true, some, List, arith}
use svidmint.Attestor.Calls.{World, Jwt, Algorithm}

-- The evidence has the token as a text in one of its fields, signed with one of the algorithms.
pub record IsTokenOf (w : World) (field : String) (algorithms : List Algorithm) (evidence : String)
    (tok : Jwt) : Type 0 where
  pub token : String
  pub given : w.json_field field evidence ≡ some token
  pub not_empty : token ≢ ""
  pub parsed : w.parse_signed token algorithms ≡ some tok

pub tested-IsTokenOf :
    (w : World) (field : String) (algorithms : List Algorithm) (evidence token : String) (tok : Jwt)
    → w.json_field field evidence ≡ some token
    → not (token == "") ≡ true
    → w.parse_signed token algorithms ≡ some tok
    → IsTokenOf w field algorithms evidence tok
tested-IsTokenOf w field algorithms evidence token tok given tested parsed = record {
  token = token;
  given = given;
  not_empty = λ e. ground (arith, eq_iff token "");
  parsed = parsed;
}
