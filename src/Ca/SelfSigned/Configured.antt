-- ===== src/Ca/SelfSigned/Configured.antt =====
-- internal/ca/self_signed.go: the settings of an authority that `NewSelfSignedCA` has started.
use svidmint.Base.{◌≡◌, ap, ◌∙◌, Option, some, Result, ok, or_err, or_err-eq-ok, arith}
use svidmint.Ca.Types.{Crypto}
use svidmint.Ca.SelfSigned.Defs.{CaError, SelfSignedCa}
use svidmint.Ca.SelfSigned.Disk.{Encoding, Files, lift, op_ok}
use svidmint.Ca.SelfSigned.Roots.{create_intermediate_cert}
use svidmint.Ca.SelfSigned.Create.{SelfSignedCaConfig, StartDraws, get_root, new_self_signed_ca}

drawn :
    {A : Type 0} (o : Option A) (x : CaError) (files : Files) {a : A} {files' : Files}
    → lift (or_err o x) files ≡ (ok a, files')
    → o ≡ some a
drawn {A = A} o x files h = or_err-eq-ok o x (ap (λ (r : Result CaError A × Files). r.0) h)

module _ (c : Crypto) (enc : Encoding) where
  pub record IsConfigured (cfg : SelfSignedCaConfig) (ca : SelfSignedCa) : Type 0 where
    pub domain : ca.trust_domain ≡ cfg.trust_domain
    pub default_ttl : enc.parse_duration cfg.default_ttl ≡ some ca.default_ttl
    pub max_ttl : enc.parse_duration cfg.max_ttl ≡ some ca.max_ttl

  pub new_self_signed_ca-IsConfigured :
      (cfg : SelfSignedCaConfig) (draws : StartDraws) (ca : SelfSignedCa) (files files' : Files)
      → new_self_signed_ca c enc cfg draws files ≡ (ok ca, files')
      → IsConfigured cfg ca
  unfolding new_self_signed_ca
  new_self_signed_ca-IsConfigured cfg draws ca files files' h =
      op_ok (lift (or_err (enc.parse_duration cfg.default_ttl) _)) _ files h λ default_ttl f₁ e₁ h₁.
        op_ok (lift (or_err (enc.parse_duration cfg.max_ttl) _)) _ f₁ h₁ λ max_ttl f₂ e₂ h₂.
          op_ok (lift (or_err (enc.parse_duration cfg.signing_ttl) _)) _ f₂ h₂ λ signing f₃ e₃ h₃.
            op_ok (get_root c enc cfg draws) _ f₃ h₃ λ root f₄ e₄ h₄.
              op_ok (lift (or_err draws.intermediate_key _)) _ f₄ h₄ λ key f₅ e₅ h₅.
                op_ok (lift (create_intermediate_cert c _ _ key _ _ signing)) _ f₅ h₅
                  λ cert f₆ e₆ h₆. op_ok (lift (or_err draws.jwt_key _)) _ f₆ h₆ λ jwt_key f₇ e₇ h₇.
                    op_ok (lift (or_err (enc.jwt_key_id _) _)) _ f₇ h₇ λ key_id f₈ e₈ h₈. record {
                      domain = ground arith;
                      default_ttl = drawn _ _ files e₁ ∙ ap some (ground arith);
                      max_ttl = drawn _ _ f₁ e₂ ∙ ap some (ground arith);
                    }
