-- ===== src/Tests/Restart.antt =====
-- A restart of the authority of internal/ca/self_signed.go at concrete inputs.
use svidmint.Base.{◌≡◌, ◌≢◌, refl, true, none, some, [], ◌∷◌, ok, arith, eq_iff}
use svidmint.Base.Int.{pos}
use svidmint.Base.Assoc.{lookup, insert}
use svidmint.Ca.{Certificate, Crypto}
use svidmint.Ca.SelfSigned.{SelfSignedCa}
use svidmint.Ca.SelfSigned.Disk.{
  Files, Encoding, ecdsa, write_file, save_key, save_cert, load_key, load_cert, file_exists,
}
use svidmint.Ca.SelfSigned.Create.{
  SelfSignedCaConfig, StartDraws, load_root, make_root, get_root, new_self_signed_ca,
}
use svidmint.Ca.SelfSigned.Roots.{create_root_cert, create_intermediate_cert}
use svidmint.Ca.SelfSigned.Persistence.{RoundTrips, restart_keeps_root}
use svidmint.Tests.Toy.{toy, web_template, noon}

-- Every certificate that is made is the same.
abbrev pub maker : Crypto
maker = record toy {
  create_certificate = λ t parent pub_key key. some "der";
  parse_certificate = λ der. some (record { template = web_template; public_key = "p"; raw = der });
}

abbrev pub plain_text : Encoding
plain_text = record {
  pem_encode = λ label der. der;
  pem_decode = λ s. some s;
  marshal_pkcs8 = λ key. some key;
  parse_pkcs8 = λ der. some (ecdsa der);
  jwt_key_id = λ key. some "kid";
  parse_duration = λ s. some (pos 3_600_000_000_000);
  writable = λ path. true;
}

pub read_raw : RoundTrips maker plain_text
read_raw = record { pem = λ label der. refl; pkcs8 = λ key der h. cc; raw = λ der cert h. cc }

abbrev pub config : SelfSignedCaConfig
config = record {
  trust_domain = "td";
  key_type = "";
  root_key_path = "root.key";
  root_cert_path = "root.crt";
  signing_ttl = "1h";
  default_ttl = "1h";
  max_ttl = "24h";
}

abbrev pub first : StartDraws
first = record {
  root_key = some "root1";
  root_serial = some 1;
  root_now = noon;
  intermediate_key = some "inter1";
  intermediate_serial = some 2;
  intermediate_now = noon;
  jwt_key = some "jwt1";
}

abbrev second_start : StartDraws
second_start = record first {
  root_key = none;
  intermediate_key = some "inter2";
  jwt_key = some "jwt2";
}

abbrev cert : Certificate
cert = record { template = web_template; public_key = "p"; raw = "der" }

abbrev pub started : SelfSignedCa
started = record {
  root_key = "root1";
  root_cert = cert;
  intermediate_key = "inter1";
  intermediate_cert = cert;
  jwt_signing_key = "jwt1";
  jwt_key_id = "kid";
  trust_domain = "td";
  default_ttl = pos 3_600_000_000_000;
  max_ttl = pos 3_600_000_000_000;
}

abbrev restarted : SelfSignedCa
restarted = record started { intermediate_key = "inter2"; jwt_signing_key = "jwt2" }

abbrev pub files : Files
files = ("root.key", "root1") ∷ ("root.crt", "der") ∷ []

starts : new_self_signed_ca maker plain_text config first [] ≡ (ok started, files)
unfolding new_self_signed_ca create_root_cert create_intermediate_cert get_root load_root make_root
    file_exists write_file save_key save_cert load_key load_cert lookup insert
starts = refl

starts_again : new_self_signed_ca maker plain_text config second_start files ≡ (ok restarted, files)
unfolding new_self_signed_ca create_root_cert create_intermediate_cert get_root load_root make_root
    file_exists write_file save_key save_cert load_key load_cert lookup insert
starts_again = refl

pub paths_apart : config.root_key_path ≢ config.root_cert_path
paths_apart e = ground (arith, eq_iff "root.key" "root.crt")

restart_keeps_root_example :
    (restarted.root_key ≡ started.root_key)
    × (restarted.root_cert ≡ started.root_cert)
    × (files ≡ files)
restart_keeps_root_example =
    restart_keeps_root maker plain_text read_raw config first second_start started restarted []
      files files paths_apart starts starts_again
