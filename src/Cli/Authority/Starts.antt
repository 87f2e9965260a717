-- ===== src/Cli/Authority/Starts.antt =====
-- Starts of the authority from the files that `ca init` and `ca rotate` (internal/cli/ca.go) leave.
use svidmint.Base.{
  String, ◌≡◌, refl, ap, ◌∙◌, Bool, ◌&&◌, true, false, none, some, Result, ok, err, or_err,
  or_err-eq-ok, arith, eq_refl,
}
use svidmint.Base.Assoc.{lookup, erase, lookup-erase}
use svidmint.Ca.{Crypto}
use svidmint.Ca.SelfSigned.{CaError, SelfSignedCa}
use svidmint.Ca.SelfSigned.Disk.{
  Files, Encoding, lift, wrap_op, op_ok, op_same, file_exists, load_key, load_cert, save_key,
  save_cert,
}
use svidmint.Ca.SelfSigned.Roots.{create_root_cert, create_intermediate_cert}
use svidmint.Ca.SelfSigned.Create.{
  SelfSignedCaConfig, StartDraws, Root, load_root, make_root, get_root, new_self_signed_ca,
}
use svidmint.Cli.Types.{CliError}
use svidmint.Cli.Authority.{CaFlags, remove, ca_config, done}

pub missing_left : (a b : Bool) → a ≡ false → (a && b) ≡ false
missing_left a b h = ground arith

pub missing_right : (a b : Bool) → b ≡ false → (a && b) ≡ false
missing_right a b h = ground arith

pub key_removed :
    (key cert : String) (can_remove : String → Bool) (files : Files)
    → can_remove key ≡ true
    → file_exists key (remove can_remove cert (remove can_remove key files)) ≡ false
unfolding file_exists
key_removed key cert can_remove files can =
    let gone : lookup key (remove can_remove cert (remove can_remove key files)) ≡ none =
      ground
        (arith, lookup-erase cert key (erase key files), lookup-erase key key files, eq_refl key) in
    rw (gone, file_exists) refl

pub cert_removed :
    (key cert : String) (can_remove : String → Bool) (files : Files)
    → can_remove cert ≡ true
    → file_exists cert (remove can_remove cert (remove can_remove key files)) ≡ false
unfolding file_exists
cert_removed key cert can_remove files can =
    let gone : lookup cert (remove can_remove cert (remove can_remove key files)) ≡ none =
      ground (arith, lookup-erase cert cert (remove can_remove key files), eq_refl cert) in
    rw (gone, file_exists) refl

module _ (c : Crypto) (enc : Encoding) where
  load_root-same :
      (cfg : SelfSignedCaConfig) (files : Files) → (load_root c enc cfg files).1 ≡ files
  unfolding load_root
  load_root-same cfg files =
      op_same (wrap_op _ (λ fs. (load_key c enc cfg.root_key_path fs, fs))) _ files refl λ key.
        op_same (wrap_op _ (λ fs. (load_cert c enc cfg.root_cert_path fs, fs))) _ files refl
          λ cert. refl

  get_root-same :
      (cfg : SelfSignedCaConfig) (draws : StartDraws) (files : Files)
      → file_exists cfg.root_key_path files ≡ true
      → file_exists cfg.root_cert_path files ≡ true
      → (get_root c enc cfg draws files).1 ≡ files
  unfolding get_root
  get_root-same cfg draws files key cert = rw (key, cert) (load_root-same cfg files)

  pub new_ca-same :
      (cfg : SelfSignedCaConfig) (draws : StartDraws) (files : Files)
      → file_exists cfg.root_key_path files ≡ true
      → file_exists cfg.root_cert_path files ≡ true
      → (new_self_signed_ca c enc cfg draws files).1 ≡ files
  unfolding new_self_signed_ca
  new_ca-same cfg draws files key cert =
      op_same (lift (or_err (enc.parse_duration cfg.default_ttl) _)) _ files refl λ default_ttl.
        op_same (lift (or_err (enc.parse_duration cfg.max_ttl) _)) _ files refl λ max_ttl.
          op_same (lift (or_err (enc.parse_duration cfg.signing_ttl) _)) _ files refl λ signing_ttl.
            op_same (get_root c enc cfg draws) _ files (get_root-same cfg draws files key cert)
              λ root.
                op_same (lift (or_err draws.intermediate_key _)) _ files refl λ intermediate_key.
                  op_same
                    (lift (
                      create_intermediate_cert c root.0 root.1 intermediate_key
                        draws.intermediate_serial draws.intermediate_now signing_ttl))
                    _ files refl
                    λ intermediate_cert.
                      op_same (lift (or_err draws.jwt_key _)) _ files refl λ jwt_key.
                        op_same (lift (or_err (enc.jwt_key_id (c.public_of jwt_key)) _)) _ files
                          refl λ key_id. refl

  pub done-files :
      {A B : Type 0} (f : CaError → CliError) (b : B) (r : Result CaError A × Files)
      → (done f b r).1 ≡ r.1
  done-files f b (ok _, files) = refl
  done-files f b (err _, files) = refl

  make_root-drawn :
      (cfg : SelfSignedCaConfig) (draws : StartDraws) (root : Root) (files files' : Files)
      → make_root c enc cfg draws files ≡ (ok root, files')
      → draws.root_key ≡ some root.0
  unfolding make_root
  make_root-drawn cfg draws root files files' h =
      op_ok (lift (or_err draws.root_key CaError.generating_key)) _ files h λ key f₁ drawn h₁.
        op_ok (lift (create_root_cert c key draws.root_serial draws.root_now)) _ f₁ h₁
          λ cert f₂ _ h₂.
            op_ok (wrap_op _ (save_key c enc cfg.root_key_path key)) _ f₂ h₂ λ _ f₃ _ h₃.
              op_ok (wrap_op _ (save_cert c enc cfg.root_cert_path cert)) _ f₃ h₃ λ _ f₄ _ h₄.
                let got : or_err draws.root_key CaError.generating_key ≡ ok key = ground arith in
                let same : key ≡ root.0 = ground arith in
                or_err-eq-ok draws.root_key _ got ∙ ap some same

  pub done_ok :
      {P : Type 0} (f : CaError → CliError) (b s : String) (r : Result CaError SelfSignedCa × Files)
      (files' : Files)
      → done f b r ≡ (ok s, files')
      → ((ca : SelfSignedCa) → r ≡ (ok ca, files') → P)
      → P
  done_ok f b s (ok ca, files) files' h k = k ca (ground arith)
  done_ok f b s (err e, files) files' h k = absurd (ground arith)

  -- a start that finds no root key or no root certificate makes the root
  pub missing-drawn :
      (flags : CaFlags) (draws : StartDraws) (root : Root) (files₀ files' : Files)
      → (file_exists flags.root_key_path files₀ && file_exists flags.root_cert_path files₀) ≡ false
      → get_root c enc (ca_config flags) draws files₀ ≡ (ok root, files')
      → draws.root_key ≡ some root.0
  unfolding get_root
  missing-drawn flags draws root files₀ files' missing got =
      make_root-drawn (ca_config flags) draws root files₀ files' (rw (missing, get_root) at got)
