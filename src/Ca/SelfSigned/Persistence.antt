-- ===== src/Ca/SelfSigned/Persistence.antt =====
-- A restart of the authority (`NewSelfSignedCA` of self_signed.go) finds the root that the first
-- start made.
use svidmint.Base.{
  String, ◌≡◌, ◌≢◌, sym, ◌∙◌, true, ◌&&◌, Option, some, ℕ, ap, Option-cases, ok, arith, eq_iff,
  eq_refl, or_err, or_err-eq-ok, or_err_ok, Bool-cases, inl, inr,
}
use svidmint.Base.Assoc.{lookup, insert, lookup-insert}
use svidmint.Ca.Types.{Time, PrivateKey, Der, Certificate, Crypto}
use svidmint.Ca.SelfSigned.Defs.{SelfSignedCa}
use svidmint.Ca.SelfSigned.Roots.{create_root_cert}
use svidmint.Ca.SelfSigned.Disk.{
  Files, Encoding, ecdsa, op_ok, wrap_op, wrap_op_ok, lift, save_key, save_cert, load_key,
  load_cert, file_exists,
}
use svidmint.Ca.SelfSigned.Create.{
  SelfSignedCaConfig, StartDraws, Root, load_root, make_root, get_root, new_self_signed_ca,
}

-- What PEM and DER promise: what is encoded is read back, and a certificate keeps its DER.
pub record RoundTrips (c : Crypto) (enc : Encoding) : Type 0 where
  pub pem : (type : String) (der : Der) → enc.pem_decode (enc.pem_encode type der) ≡ some der
  pub pkcs8 :
      (key : PrivateKey) (der : Der)
      → enc.marshal_pkcs8 key ≡ some der
      → enc.parse_pkcs8 der ≡ some (ecdsa key)
  pub raw : (der : Der) (cert : Certificate) → c.parse_certificate der ≡ some cert → cert.raw ≡ der

module _ (c : Crypto) (enc : Encoding) (laws : RoundTrips c enc) where
  -- The files hold this root.
  pub record IsSaved (cfg : SelfSignedCaConfig) (root : Root) (files : Files) : Type 0 where
    pub key : load_key c enc cfg.root_key_path files ≡ ok root.0
    pub cert : load_cert c enc cfg.root_cert_path files ≡ ok root.1

  pub load_root-IsSaved :
      (cfg : SelfSignedCaConfig) (root : Root) (files files' : Files)
      → load_root c enc cfg files ≡ (ok root, files')
      → IsSaved cfg root files' × (files' ≡ files)
  unfolding load_root
  load_root-IsSaved cfg root files files' h =
      let same : files' ≡ files = ground arith in
      (rw same (record { key = ground arith; cert = ground arith }), same)

  save_key_text :
      (path : String) (key : PrivateKey) (files files' : Files) {u : Unit {0}}
      → save_key c enc path key files ≡ (ok u, files')
      → (der : Der) × (enc.marshal_pkcs8 key ≡ some der)
        × (files' ≡ insert path (enc.pem_encode "PRIVATE KEY" der) files)
  unfolding save_key
  save_key_text path key files files' h = elim (Option-cases (enc.marshal_pkcs8 key)) [
    | inl no_der ↦ absurd (ground arith)
    | inr (der, marshaled) ↦ (der, marshaled, ground arith)
  ]

  save_cert_text :
      (path : String) (cert : Certificate) (files files' : Files) {u : Unit {0}}
      → save_cert c enc path cert files ≡ (ok u, files')
      → files' ≡ insert path (enc.pem_encode "CERTIFICATE" cert.raw) files
  unfolding save_cert
  save_cert_text path cert files files' h = ground arith

  load_key_text :
      (path type : String) (key : PrivateKey) (der : Der) (files : Files)
      → lookup path files ≡ some (enc.pem_encode type der)
      → enc.marshal_pkcs8 key ≡ some der
      → load_key c enc path files ≡ ok key
  unfolding load_key
  load_key_text path type key der files found marshaled =
      rw found (rw (laws.pem type der) (rw (laws.pkcs8 key der marshaled)))

  load_cert_text :
      (path type : String) (cert : Certificate) (der : Der) (files : Files)
      → lookup path files ≡ some (enc.pem_encode type cert.raw)
      → c.parse_certificate der ≡ some cert
      → load_cert c enc path files ≡ ok cert
  unfolding load_cert
  load_cert_text path type cert der files found parsed = rw found (
      rw (laws.pem type cert.raw) (
        let same : c.parse_certificate cert.raw ≡ some cert =
          ap c.parse_certificate (laws.raw der cert parsed) ∙ parsed in
        rw same))

  create_root_cert_parsed :
      (key : PrivateKey) (serial : Option ℕ) (now : Time) (cert : Certificate)
      → create_root_cert c key serial now ≡ ok cert
      → (der : Der) × (c.parse_certificate der ≡ some cert)
  unfolding create_root_cert
  create_root_cert_parsed key serial now cert h = or_err_ok serial _ _ h λ _ _ h₁.
      or_err_ok (c.create_certificate _ _ _ _) _ _ h₁ λ der _ h₂. (der, or_err-eq-ok _ _ h₂)

  lookup_first :
      (k j v w : String) (files : Files) → k ≢ j → lookup k (insert j w (insert k v files)) ≡ some v
  lookup_first k j v w files apart =
      rw lookup-insert (ground (arith, eq_iff j k, lookup-insert k k v files, eq_iff k k))

  lookup_second : (k w : String) (files : Files) → lookup k (insert k w files) ≡ some w
  lookup_second k w files = rw lookup-insert (rw (eq_refl k))

  make_root-IsSaved :
      (cfg : SelfSignedCaConfig) (draws : StartDraws) (root : Root) (files files' : Files)
      → cfg.root_key_path ≢ cfg.root_cert_path
      → make_root c enc cfg draws files ≡ (ok root, files')
      → IsSaved cfg root files'
  unfolding make_root
  make_root-IsSaved cfg draws root files files' apart h =
      op_ok (lift (or_err draws.root_key _)) _ files h λ key f₁ drawn h₁.
        op_ok (lift (create_root_cert c key draws.root_serial draws.root_now)) _ f₁ h₁
          λ cert f₂ made h₂.
            op_ok (wrap_op _ (save_key c enc cfg.root_key_path key)) _ f₂ h₂ λ _ f₃ saved h₃.
              op_ok (wrap_op _ (save_cert c enc cfg.root_cert_path cert)) _ f₃ h₃ λ _ f₄ saved' h₄.
                let k = wrap_op_ok _ (save_key c enc cfg.root_key_path key) f₂ saved in
                let r = wrap_op_ok _ (save_cert c enc cfg.root_cert_path cert) f₃ saved' in
                let (der, marshaled, with_key) = save_key_text _ key f₂ f₃ k in
                let with_cert = save_cert_text _ cert f₃ f₄ r in
                let (der', parsed) =
                  create_root_cert_parsed key draws.root_serial draws.root_now cert
                    (ground arith) in
                let last : files' ≡ f₄ = ground arith in
                let same_key : root.0 ≡ key = ground arith in
                let same_cert : root.1 ≡ cert = ground arith in
                rw last (
                  rw with_cert (
                    rw with_key (record {
                      key =
                          load_key_text _ _ _ der _ (lookup_first _ _ _ _ f₂ apart) marshaled
                          ∙ ap ok (sym same_key);
                      cert =
                          load_cert_text _ _ cert der' _ (lookup_second _ _ _) parsed
                          ∙ ap ok (sym same_cert);
                    })))

  file_exists_key :
      (path : String) (key : PrivateKey) (files : Files)
      → load_key c enc path files ≡ ok key
      → file_exists path files ≡ true
  unfolding load_key file_exists
  file_exists_key path key files h = ground arith

  file_exists_cert :
      (path : String) (cert : Certificate) (files : Files)
      → load_cert c enc path files ≡ ok cert
      → file_exists path files ≡ true
  unfolding load_cert file_exists
  file_exists_cert path cert files h = ground arith

  pub get_root_saved :
      (cfg : SelfSignedCaConfig) (draws : StartDraws) (root : Root) (files : Files)
      → IsSaved cfg root files
      → get_root c enc cfg draws files ≡ (ok root, files)
  unfolding get_root load_root
  get_root_saved cfg draws root files s =
      rw (file_exists_key _ _ files s.key, file_exists_cert _ _ files s.cert)
        (rw (s.key) (rw (s.cert)))

  pub get_root-IsSaved :
      (cfg : SelfSignedCaConfig) (draws : StartDraws) (root : Root) (files files' : Files)
      → cfg.root_key_path ≢ cfg.root_cert_path
      → get_root c enc cfg draws files ≡ (ok root, files')
      → IsSaved cfg root files'
  unfolding get_root
  get_root-IsSaved cfg draws root files files' apart h =
      elim (Bool-cases
        (file_exists cfg.root_key_path files && file_exists cfg.root_cert_path files)) [
          | inl both ↦ (load_root-IsSaved cfg root files files' (rw both at h)).0
          | inr missing ↦ make_root-IsSaved cfg draws root files files' apart (rw missing at h)
        ]

  pub root_of_start :
      (cfg : SelfSignedCaConfig) (draws : StartDraws) (ca : SelfSignedCa) (files files' : Files)
      → new_self_signed_ca c enc cfg draws files ≡ (ok ca, files')
      → (root : Root) × (get_root c enc cfg draws files ≡ (ok root, files'))
        × (ca.root_key ≡ root.0)
        × (ca.root_cert ≡ root.1)
  unfolding new_self_signed_ca
  root_of_start cfg draws ca files files' h =
      op_ok (lift (or_err (enc.parse_duration cfg.default_ttl) _)) _ files h λ default_ttl f₁ e₁ h₁.
        op_ok (lift (or_err (enc.parse_duration cfg.max_ttl) _)) _ f₁ h₁ λ max_ttl f₂ e₂ h₂.
          op_ok (lift (or_err (enc.parse_duration cfg.signing_ttl) _)) _ f₂ h₂
            λ signing_ttl f₃ e₃ h₃.
              op_ok (get_root c enc cfg draws) _ f₃ h₃
                λ root f₄ got h₄. (root, ground arith, ground arith, ground arith)

  -- A first start that succeeds, whether it loads or makes the root, leaves files from which every
  -- later start that succeeds has the same root key and certificate, and which it does not change.
  -- The two paths differ. (PEM and DER are read back as they were written.)
  pub restart_keeps_root :
      (cfg : SelfSignedCaConfig) (draws draws' : StartDraws) (ca ca' : SelfSignedCa)
      (files files' files'' : Files)
      → cfg.root_key_path ≢ cfg.root_cert_path
      → new_self_signed_ca c enc cfg draws files ≡ (ok ca, files')
      → new_self_signed_ca c enc cfg draws' files' ≡ (ok ca', files'')
      → (ca'.root_key ≡ ca.root_key) × (ca'.root_cert ≡ ca.root_cert) × (files'' ≡ files')
  restart_keeps_root cfg draws draws' ca ca' files files' files'' apart h h' =
      let (root, started, key, cert) = root_of_start cfg draws ca files files' h in
      let (root', started', key', cert') = root_of_start cfg draws' ca' files' files'' h' in
      let again =
        get_root_saved cfg draws' root files'
          (get_root-IsSaved cfg draws root files files' apart started) in
      (ground arith, ground arith, ground arith)
