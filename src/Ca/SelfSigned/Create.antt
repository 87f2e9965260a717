-- ===== src/Ca/SelfSigned/Create.antt =====
-- internal/ca/self_signed.go: `NewSelfSignedCA`, which loads or makes the root and makes the
-- intermediate and the JWT key.
use svidmint.Base.{ℕ, String, ◌&&◌, Option, or_err, if◌then◌else◌, ok}
use svidmint.Ca.Types.{Time, PrivateKey, Certificate, Crypto}
use svidmint.Ca.SelfSigned.Defs
use svidmint.Ca.SelfSigned.Defs.{SelfSignedCa}
use svidmint.Ca.SelfSigned.Roots.{create_root_cert, create_intermediate_cert}
use svidmint.Ca.SelfSigned.Disk.{
  Encoding, FileOp, ◌>>=◌, lift, wrap_op, save_key, save_cert, load_key, load_cert, file_exists,
}

pub record SelfSignedCaConfig : Type 0 where
  pub trust_domain : String
  pub key_type : String
  pub root_key_path : String
  pub root_cert_path : String
  pub signing_ttl : String
  pub default_ttl : String
  pub max_ttl : String

-- The random keys and serials and the clock readings of one start, in the order of their use.
pub record StartDraws : Type 0 where
  pub root_key : Option PrivateKey
  pub root_serial : Option ℕ
  pub root_now : Time
  pub intermediate_key : Option PrivateKey
  pub intermediate_serial : Option ℕ
  pub intermediate_now : Time
  pub jwt_key : Option PrivateKey

-- the root's key and certificate
abbrev pub Root : Type 0
Root = PrivateKey × Certificate

module _ (c : Crypto) (enc : Encoding) where
  -- the branch of `NewSelfSignedCA` that loads the root
  unfoldable pub load_root : SelfSignedCaConfig → FileOp Root
  load_root cfg files =
      (do
        key ← wrap_op Defs.loading_root_key (λ fs. (load_key c enc cfg.root_key_path fs, fs))
        cert ← wrap_op Defs.loading_root_cert (λ fs. (load_cert c enc cfg.root_cert_path fs, fs))
        lift (ok (key, cert)))
        files

  -- the branch that makes a root and saves it
  unfoldable pub make_root : SelfSignedCaConfig → StartDraws → FileOp Root
  make_root cfg draws = do
    key ← lift (or_err draws.root_key Defs.generating_key)
    cert ← lift (create_root_cert c key draws.root_serial draws.root_now)
    _ ← wrap_op Defs.saving_root_key (save_key c enc cfg.root_key_path key)
    _ ← wrap_op Defs.saving_root_cert (save_cert c enc cfg.root_cert_path cert)
    lift (ok (key, cert))

  unfoldable pub get_root : SelfSignedCaConfig → StartDraws → FileOp Root
  unfolding file_exists
  get_root cfg draws files =
      if file_exists cfg.root_key_path files && file_exists cfg.root_cert_path files
      then load_root cfg files
      else make_root cfg draws files

  -- `NewSelfSignedCA`
  unfoldable pub new_self_signed_ca : SelfSignedCaConfig → StartDraws → FileOp SelfSignedCa
  new_self_signed_ca cfg draws = do
    default_ttl ← lift (or_err (enc.parse_duration cfg.default_ttl) Defs.parsing_default_ttl)
    max_ttl ← lift (or_err (enc.parse_duration cfg.max_ttl) Defs.parsing_max_ttl)
    signing_ttl ← lift (or_err (enc.parse_duration cfg.signing_ttl) Defs.parsing_signing_ttl)
    root ← get_root cfg draws
    intermediate_key ← lift (or_err draws.intermediate_key Defs.generating_key)
    intermediate_cert ← lift (
        create_intermediate_cert c root.0 root.1 intermediate_key draws.intermediate_serial
          draws.intermediate_now signing_ttl)
    jwt_key ← lift (or_err draws.jwt_key Defs.generating_key)
    key_id ← lift (or_err (enc.jwt_key_id (c.public_of jwt_key)) Defs.marshaling_public_key)
    lift (
        ok (record {
          root_key = root.0;
          root_cert = root.1;
          intermediate_key = intermediate_key;
          intermediate_cert = intermediate_cert;
          jwt_signing_key = jwt_key;
          jwt_key_id = key_id;
          trust_domain = cfg.trust_domain;
          default_ttl = default_ttl;
          max_ttl = max_ttl;
        }))
