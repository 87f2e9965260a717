-- ===== src/Cli/Authority/Fresh.antt =====
-- What `ca init` and `ca rotate` (internal/cli/ca.go) leave on disk.
use svidmint.Base.{
  String, ◌≡◌, ◌≢◌, ◌⊎◌, ◌∙◌, Bool, ◌&&◌, true, false, some, inl, inr, Result, ok, err, Bool-cases,
  arith,
}
use svidmint.Ca.{Crypto}
use svidmint.Ca.SelfSigned.{SelfSignedCa}
use svidmint.Ca.SelfSigned.Disk.{Files, Encoding, file_exists, load_key, load_cert}
use svidmint.Ca.SelfSigned.Create.{
  SelfSignedCaConfig, StartDraws, Root, get_root, new_self_signed_ca,
}
use svidmint.Ca.SelfSigned.Persistence.{
  RoundTrips, IsSaved, load_root-IsSaved, root_of_start, get_root-IsSaved, get_root_saved,
}
use svidmint.Cli.Types.{CliError}
use svidmint.Cli.Authority.Starts.{
  new_ca-same, done-files, done_ok, missing-drawn, key_removed, cert_removed, missing_left,
  missing_right,
}
use svidmint.Cli.Authority.{CaFlags, remove, ca_config, run_ca_init, run_ca_rotate}

module _ (c : Crypto) (enc : Encoding) where
  -- Where the root's key and certificate are on disk, `ca rotate` leaves every file as it was,
  -- whatever keys it draws and whether or not it reports success: the new intermediate key is
  -- stored nowhere.
  pub run_ca_rotate-same :
      (flags : CaFlags) (draws : StartDraws) (files : Files)
      → file_exists flags.root_key_path files ≡ true
      → file_exists flags.root_cert_path files ≡ true
      → (run_ca_rotate c enc flags draws files).1 ≡ files
  unfolding run_ca_rotate
  run_ca_rotate-same flags draws files key cert =
      done-files c enc _ _ (new_self_signed_ca c enc (ca_config flags) draws files)
      ∙ new_ca-same c enc (ca_config flags) draws files key cert

  -- Neither file of the root could be removed, and the root that they hold was loaded.
  pub record IsLeft (can_remove : String → Bool) (flags : CaFlags) (root : Root)
      (files files' : Files) : Type 0 where
    pub forced : flags.force ≡ true
    pub key_stays : can_remove flags.root_key_path ≡ false
    pub cert_stays : can_remove flags.root_cert_path ≡ false
    pub key : load_key c enc flags.root_key_path files ≡ ok root.0
    pub cert : load_cert c enc flags.root_cert_path files ≡ ok root.1
    pub same : files' ≡ files

  -- Nothing was overwritten unless that was asked for; the root is the one that was drawn, or the
  -- old one where its files could not be removed, and every later start with the same paths that
  -- succeeds has it and changes no file.
  pub record IsInit (can_remove : String → Bool) (flags : CaFlags) (draws : StartDraws)
      (files files' : Files) : Type 0 where
    pub unless_forced :
        flags.force ≡ false
        → (file_exists flags.root_key_path files ≡ false)
          × (file_exists flags.root_cert_path files ≡ false)
    pub root : Root
    pub origin : (draws.root_key ≡ some root.0) ⊎ IsLeft can_remove flags root files files'
    pub later :
        (cfg : SelfSignedCaConfig) (draws' : StartDraws) (ca : SelfSignedCa) (files'' : Files)
        → cfg.root_key_path ≡ flags.root_key_path
        → cfg.root_cert_path ≡ flags.root_cert_path
        → new_self_signed_ca c enc cfg draws' files' ≡ (ok ca, files'')
        → (ca.root_key ≡ root.0) × (ca.root_cert ≡ root.1) × (files'' ≡ files')

  module _ (laws : RoundTrips c enc) where
    moved_paths :
        (cfg cfg' : SelfSignedCaConfig) (root : Root) (files : Files)
        → cfg'.root_key_path ≡ cfg.root_key_path
        → cfg'.root_cert_path ≡ cfg.root_cert_path
        → IsSaved c enc laws cfg root files
        → IsSaved c enc laws cfg' root files
    moved_paths cfg cfg' root files p q s = record { key = rw p (s.key); cert = rw q (s.cert) }

    -- whatever a start finds, its root is what later starts have
    started-IsInit :
        (can_remove : String → Bool) (flags : CaFlags) (draws : StartDraws) (ca : SelfSignedCa)
        (files₀ files files' : Files)
        → flags.root_key_path ≢ flags.root_cert_path
        → (flags.force ≡ false
            → (file_exists flags.root_key_path files ≡ false)
              × (file_exists flags.root_cert_path files ≡ false))
        → ((root : Root)
            → get_root c enc (ca_config flags) draws files₀ ≡ (ok root, files')
            → (draws.root_key ≡ some root.0) ⊎ IsLeft can_remove flags root files files')
        → new_self_signed_ca c enc (ca_config flags) draws files₀ ≡ (ok ca, files')
        → IsInit can_remove flags draws files files'
    started-IsInit can_remove flags draws ca files₀ files files' apart kept origin h =
        let (root, got, _, _) =
          root_of_start c enc laws (ca_config flags) draws ca files₀ files' h in
        let saved =
          get_root-IsSaved c enc laws (ca_config flags) draws root files₀ files' apart got in
        record {
          unless_forced = kept;
          root = root;
          origin = origin root got;
          later = λ cfg draws' ca' files'' p q again.
              let (root', got', key, cert) =
                root_of_start c enc laws cfg draws' ca' files' files'' again in
              let found =
                get_root_saved c enc laws cfg draws' root files'
                  (moved_paths (ca_config flags) cfg root files' p q saved) in
              (ground arith, ground arith, ground arith);
        }

    -- where neither file can be removed
    kept_origin :
        (can_remove : String → Bool) (flags : CaFlags) (draws : StartDraws) (root : Root)
        (files files' : Files)
        → flags.force ≡ true
        → can_remove flags.root_key_path ≡ false
        → can_remove flags.root_cert_path ≡ false
        → get_root c enc (ca_config flags) draws files ≡ (ok root, files')
        → (draws.root_key ≡ some root.0) ⊎ IsLeft can_remove flags root files files'
    unfolding get_root
    kept_origin can_remove flags draws root files files' forced no_key no_cert got =
        elim (Bool-cases
          (file_exists flags.root_key_path files && file_exists flags.root_cert_path files)) [
            | inr missing ↦ inl (missing-drawn c enc flags draws root files files' missing got)
            | inl both ↦
                let (saved, same) =
                  load_root-IsSaved c enc laws (ca_config flags) root files files'
                    (rw (both, get_root) at got) in
                let old = rw same at saved in
                inr (record {
                  forced = forced;
                  key_stays = no_key;
                  cert_stays = no_cert;
                  key = old.key;
                  cert = old.cert;
                  same = same;
                })
          ]

    forced_origin :
        (can_remove : String → Bool) (flags : CaFlags) (draws : StartDraws) (root : Root)
        (files files' : Files)
        → flags.force ≡ true
        → get_root c enc
            (ca_config flags)
            draws
            (remove can_remove flags.root_cert_path (remove can_remove flags.root_key_path files))
          ≡ (ok root, files')
        → (draws.root_key ≡ some root.0) ⊎ IsLeft can_remove flags root files files'
    forced_origin can_remove flags draws root files files' forced got =
        elim (Bool-cases (can_remove flags.root_key_path)) [
          | inl key ↦ inl (
              missing-drawn c enc flags draws root _ files'
                (missing_left _ _
                  (key_removed flags.root_key_path flags.root_cert_path can_remove files key))
                got)
          | inr no_key ↦ elim (Bool-cases (can_remove flags.root_cert_path)) [
            | inl cert ↦ inl (
                missing-drawn c enc flags draws root _ files'
                  (missing_right _ _
                    (cert_removed flags.root_key_path flags.root_cert_path can_remove files cert))
                  got)
            | inr no_cert ↦
                kept_origin can_remove flags draws root files files' forced no_key no_cert
                  (rw (no_key, no_cert) at got)
          ]
        ]

    -- When `ca init` succeeds without `--force`, neither file of the root was there before, so no
    -- root is overwritten, and the root is a new one with the key that was drawn. With `--force` it
    -- is a new one too, unless neither file could be removed and both were there: then the old root
    -- is loaded, no file changes, and success is reported all the same. In every case each later
    -- start of a server with these paths that succeeds has this root and changes no file. The two
    -- paths differ. (PEM and DER are read back as they were written.)
    pub run_ca_init-IsInit :
        (can_remove : String → Bool) (flags : CaFlags) (draws : StartDraws) (files files' : Files)
        (s : String)
        → flags.root_key_path ≢ flags.root_cert_path
        → run_ca_init c enc can_remove flags draws files ≡ (ok s, files')
        → IsInit can_remove flags draws files files'
    unfolding run_ca_init
    run_ca_init-IsInit can_remove flags draws files files' s apart h =
        elim (Bool-cases flags.force) [
          | inl forced ↦
              let files₀ =
                remove can_remove flags.root_cert_path
                  (remove can_remove flags.root_key_path files) in
              done_ok c enc _ _ s (new_self_signed_ca c enc (ca_config flags) draws files₀) files'
                (rw (forced, run_ca_init) at h)
                λ ca started.
                  started-IsInit can_remove flags draws ca files₀ files files' apart
                    (λ u. ground arith)
                    (λ root got. forced_origin can_remove flags draws root files files' forced got)
                    started
          | inr careful ↦ elim (Bool-cases (file_exists flags.root_key_path files)) [
            | inl key ↦ absurd (refused (rw (careful, key, run_ca_init) at h))
            | inr no_key ↦ elim (Bool-cases (file_exists flags.root_cert_path files)) [
              | inl cert ↦ absurd (refused (rw (careful, no_key, cert, run_ca_init) at h))
              | inr no_cert ↦
                  done_ok c enc _ _ s (new_self_signed_ca c enc (ca_config flags) draws files)
                    files' (rw (careful, no_key, no_cert, run_ca_init) at h)
                    λ ca started.
                      started-IsInit can_remove flags draws ca files files files' apart
                        (λ _. (no_key, no_cert))
                        (λ root got. inl (
                          missing-drawn c enc flags draws root files files'
                            (missing_left _ _ no_key) got))
                        started
            ]
          ]
        ]
      where
        refused :
            {P : Type 0} {x : CliError}
            → ◌≡◌ {A = Result CliError String × Files} (err x, files) (ok s, files')
            → P
        refused h = absurd (ground arith)
