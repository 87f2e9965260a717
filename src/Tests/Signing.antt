-- ===== src/Tests/Signing.antt =====
-- The signing methods of internal/ca/self_signed.go at concrete inputs.
use native.Mathlib.Decide.{ℕ_discrete}
use svidmint.Base.{◌≡◌, refl, none, some, [], ◌∷◌, ok}
use svidmint.Base.Int.{pos, scale, quot, wrap64, ◌+ℤ◌}
use svidmint.Ca.{X509Svid, JwtSvid}
use svidmint.Ca.Ttl.{seconds, effective_ttl, compute_ttl}
use svidmint.Ca.SelfSigned.{check_id, workload_key, leaf_template, sign_x509_svid, sign_jwt_svid}
use svidmint.Ca.SelfSigned.Signing.{
  IsX509Issue, IsJwtIssue, sign_x509_svid-IsX509Issue, sign_jwt_svid-IsJwtIssue,
}
use svidmint.Tests.Toy.{toy, toy-ReadsBack, authority, toy_draws, web, web_leaf, intermediate, noon}

abbrev pub web_svid : X509Svid
web_svid = record {
  spiffe_id = web;
  cert_chain = web_leaf ∷ intermediate ∷ [];
  private_key = some "key";
  expires_at = pos 1_700_000_600_000_000_000;
}

pub web_signed : sign_x509_svid toy authority web none (pos 600) toy_draws ≡ ok web_svid
unfolding sign_x509_svid check_id workload_key leaf_template seconds effective_ttl compute_ttl scale
    quot wrap64 ◌+ℤ◌ ℕ_discrete
web_signed = refl

sign_x509_svid_example : IsX509Issue toy authority web none (pos 600) noon web_svid
sign_x509_svid_example =
    sign_x509_svid-IsX509Issue toy authority toy-ReadsBack web none (pos 600) toy_draws web_svid
      web_signed

abbrev web_token : JwtSvid
web_token = record {
  spiffe_id = web;
  token = "header.payload.signature";
  expires_at = pos 1_700_000_600_000_000_000;
}

web_token_signed : sign_jwt_svid toy authority web ("api" ∷ []) (pos 600) toy_draws ≡ ok web_token
unfolding sign_jwt_svid check_id seconds effective_ttl compute_ttl scale quot wrap64 ◌+ℤ◌
web_token_signed = refl

sign_jwt_svid_example : IsJwtIssue toy authority web ("api" ∷ []) (pos 600) toy_draws web_token
sign_jwt_svid_example =
    sign_jwt_svid-IsJwtIssue toy authority web ("api" ∷ []) (pos 600) toy_draws web_token
      web_token_signed
