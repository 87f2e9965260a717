-- ===== src/Tests/Toy.antt =====
-- Small stand-ins for the packages that the program calls: a crypto package that makes one leaf
-- certificate, an authority, a clock.
use mathlib.Core.HLevel.{Discrete}
use native.Mathlib.Decide.{ℕ_discrete}
use svidmint.Base.{
  String, ◌≡◌, refl, arith, Bool, true, false, ◌≢◌, inl, inr, Option, none, some, [], ◌∷◌, ◌==◌,
  eq_iff, Bool-cases,
}
use svidmint.Base.Int.{pos, scale, quot}
use svidmint.Ca.{
  Time, PublicKey, Der, Template, Certificate, SpiffeId, Crypto, ReadsBack, server_auth,
  client_auth, digital_signature, key_encipherment, truncate_seconds,
}
use svidmint.Ca.SelfSigned.{SelfSignedCa, Draws}

pub apart : (s t : String) → (s == t) ≡ false → s ≢ t
apart s t h e = ground (arith, eq_iff s t)

abbrev of_test : (s t : String) (b : Bool) → (s == t) ≡ b → Dec (s ≡ t)
of_test s t true h = yes ((eq_iff s t).0 h)
of_test s t false h = no (apart s t h)

abbrev pub String-dec : (s t : String) → Dec (s ≡ t)
String-dec s t = of_test s t (s == t) refl

abbrev Template-dec : Discrete Template
Template-dec = hlevel (ℕ_discrete, String-dec)

abbrev pub noon : Time
noon = pos 1_700_000_000_000_000_000

abbrev pub web : String
web = "spiffe://td/web"

-- what the authority asks for, for `web`, 600 seconds, serial 7
abbrev pub web_template : Template
web_template = record {
  serial_number = 7;
  common_name = "";
  organization = [];
  uris = web ∷ [];
  not_before = noon;
  not_after = pos 1_700_000_600_000_000_000;
  key_usage = digital_signature ∷ key_encipherment ∷ [];
  ext_key_usage = server_auth ∷ client_auth ∷ [];
  is_ca = false;
  max_path_len = none;
}

abbrev pub web_leaf : Certificate
web_leaf = record { template = web_template; public_key = "pub-key"; raw = "leaf" }

abbrev pub some_if : {A : Type 0} → Bool → A → Option A
some_if true a = some a
some_if false a = none

abbrev made : {P : Type 0} → Dec P → PublicKey → Option Der
made (yes _) pub_key = some_if (pub_key == "pub-key") "leaf"
made (no _) pub_key = none

abbrev pub web_id : SpiffeId
web_id = record { text = web; trust_domain = "td"; path = "/web" }

abbrev pub toy : Crypto
toy = record {
  public_of = λ key. "pub-key";
  create_certificate = λ t parent pub_key key. made (Template-dec t web_template) pub_key;
  parse_certificate = λ der. some_if (der == "leaf") web_leaf;
  can_sign = λ key. true;
  sign_jwt = λ key id claims. some "header.payload.signature";
  from_string = λ s. some_if (s == web) web_id;
  url_parse = λ s. some s;
  trust_domain_from_string = λ s. some s;
  verify_x509 = λ certs td roots. some web_id;
  verify_jwt = λ token td authorities audience. some web_id;
}

made_lem :
    (t : Template) (d : Dec (t ≡ web_template)) (pub_key : PublicKey) (der : Der)
    → made d pub_key ≡ some der
    → (t ≡ web_template) × (pub_key ≡ "pub-key") × (der ≡ "leaf")
made_lem t (no _) pub_key der h = absurd (cc)
made_lem t (yes e) pub_key der h = elim (Bool-cases (pub_key == "pub-key")) [
  | inl same ↦ (e, (eq_iff pub_key "pub-key").0 same, ground arith)
  | inr other ↦ absurd (ground arith)
]

leaf_read : (cert : Certificate) → some web_leaf ≡ some cert → cert ≡ web_leaf
leaf_read cert h = cc

pub toy-ReadsBack : ReadsBack toy
unfolding truncate_seconds scale quot
toy-ReadsBack = record {
  read_back = λ t parent pub_key key der cert created parsed.
      let (same, same_key, same_der) =
        made_lem t (Template-dec t web_template) pub_key der created in
      rw (same, same_key, same_der) (leaf_read cert (rw same_der at parsed));
  uri_text = λ s u id p h. cc;
}

abbrev pub intermediate : Certificate
intermediate = record { template = web_template; public_key = "pub-key"; raw = "intermediate" }

abbrev pub authority : SelfSignedCa
authority = record {
  root_key = "root-key";
  root_cert = intermediate;
  intermediate_key = "intermediate-key";
  intermediate_cert = intermediate;
  jwt_signing_key = "jwt-key";
  jwt_key_id = "kid";
  trust_domain = "td";
  default_ttl = pos 3_600_000_000_000;
  max_ttl = pos 86_400_000_000_000;
}

abbrev pub toy_draws : Draws
toy_draws = record { key = some "key"; serial = some 7; now = noon; uuid = "uuid" }
