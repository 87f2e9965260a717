-- ===== src/Ca/SelfSigned/Disk.antt =====
-- internal/ca/self_signed.go: reading and writing the root's key and certificate. Files are a map
-- from paths to data; file modes are not modelled. What was written before an error stays written,
-- so an action returns the files beside its error too.
use svidmint.Base.{
  ◌≡◌, refl, ap, ◌∙◌, String, Bool, true, false, Option, none, some, List, Result, ok, err, arith,
  wrap_err-eq-ok, ◌>>=◌ as ◌>>=ᴿ◌, wrap_err, or_err, if◌then◌else◌,
}
use svidmint.Base.Assoc.{lookup, insert}
use svidmint.Ca.Types.{Duration, PrivateKey, PublicKey, Der, Certificate, Crypto}
use svidmint.Ca.SelfSigned.Defs
use svidmint.Ca.SelfSigned.Defs.{CaError}

abbrev pub Files : Type 0
Files = List (String × String)

-- What `x509.ParsePKCS8PrivateKey` finds.
pub data AnyKey : Type 0 where
  ecdsa : PrivateKey → AnyKey
  other_key : AnyKey

-- The packages encoding/pem, crypto/x509 (PKCS #8, PKIX), crypto/sha256 and time, and which paths
-- `os.WriteFile` can write. `jwt_key_id` is the first 16 hexadecimal digits of the hash of a key.
pub record Encoding : Type 0 where
  pub pem_encode : String → Der → String
  pub pem_decode : String → Option Der
  pub marshal_pkcs8 : PrivateKey → Option Der
  pub parse_pkcs8 : Der → Option AnyKey
  pub jwt_key_id : PublicKey → Option String
  pub parse_duration : String → Option Duration
  pub writable : String → Bool

abbrev pub FileOp {ℓ} : Type ℓ → Type ℓ
FileOp A = Files → Result CaError A × Files

infixl 5 ◌>>=◌
abbrev continue {ℓ κ} : {A : Type ℓ} {B : Type κ} → Result CaError A → (A → FileOp B) → FileOp B
continue (ok a) f files = f a files
continue (err e) f files = (err e, files)

abbrev pub ◌>>=◌ {ℓ κ} : {A : Type ℓ} {B : Type κ} → FileOp A → (A → FileOp B) → FileOp B
◌>>=◌ m f files = let (r, files') = m files in continue r f files'

-- a step that writes nothing
abbrev pub lift {ℓ} : {A : Type ℓ} → Result CaError A → FileOp A
lift r files = (r, files)

abbrev pub wrap_op {ℓ} : {A : Type ℓ} → (CaError → CaError) → FileOp A → FileOp A
wrap_op f m files = let (r, files') = m files in (wrap_err f r, files')

abbrev pub as_ecdsa : AnyKey → Result CaError PrivateKey
as_ecdsa (ecdsa key) = ok key
as_ecdsa other_key = err Defs.key_not_ecdsa

module _ (c : Crypto) (enc : Encoding) where
  -- `os.WriteFile`
  unfoldable pub write_file : String → String → FileOp (Unit {0})
  write_file path text files =
      if enc.writable path then (ok tt, insert path text files) else (err Defs.writing_file, files)

  -- `saveKey`
  unfoldable pub save_key : String → PrivateKey → FileOp (Unit {0})
  unfolding write_file
  save_key path key = do
    der ← lift (or_err (enc.marshal_pkcs8 key) Defs.marshaling_private_key)
    write_file path (enc.pem_encode "PRIVATE KEY" der)

  -- `saveCert`
  unfoldable pub save_cert : String → Certificate → FileOp (Unit {0})
  unfolding write_file
  save_cert path cert = write_file path (enc.pem_encode "CERTIFICATE" cert.raw)

  -- `loadKey`
  unfoldable pub load_key : String → Files → Result CaError PrivateKey
  load_key path files = or_err (lookup path files) Defs.reading_file >>=ᴿ λ text.
      or_err (enc.pem_decode text) Defs.no_pem_block >>=ᴿ λ der.
      or_err (enc.parse_pkcs8 der) Defs.parsing_private_key >>=ᴿ as_ecdsa

  -- `loadCert`
  unfoldable pub load_cert : String → Files → Result CaError Certificate
  load_cert path files = or_err (lookup path files) Defs.reading_file >>=ᴿ λ text.
      or_err (enc.pem_decode text) Defs.no_pem_block >>=ᴿ λ der.
      or_err (c.parse_certificate der) Defs.parsing_certificate

-- `fileExists`
unfoldable pub file_exists : String → Files → Bool
file_exists path files = elim (lookup path files) [ none ↦ false | some _ ↦ true ]

-- To go through a chain of actions that succeeded.
module _ {ℓ κ ν} {A : Type ℓ} {B : Type κ} {P : Type ν} where
  continue_ok :
      (r : Result CaError A) (f : A → FileOp B) (files : Files) {b : B} {files' : Files}
      → continue r f files ≡ (ok b, files')
      → ((a : A) → r ≡ ok a → f a files ≡ (ok b, files') → P)
      → P
  continue_ok (ok a) f files h k = k a refl h
  continue_ok (err e) f files h k = absurd (ground arith)

  pub op_ok :
      (m : FileOp A) (f : A → FileOp B) (files : Files) {b : B} {files' : Files}
      → (m >>= f) files ≡ (ok b, files')
      → ((a : A) (mid : Files) → m files ≡ (ok a, mid) → f a mid ≡ (ok b, files') → P)
      → P
  op_ok m f files h k =
      continue_ok (m files).0 f (m files).1 h λ a e h'. k a (m files).1 (ground arith) h'

-- A chain of actions that write nothing leaves the files as they were, also when one fails.
module _ {ℓ κ} {A : Type ℓ} {B : Type κ} where
  continue_same :
      (r : Result CaError A) (f : A → FileOp B) (files' files : Files)
      → files' ≡ files
      → ((a : A) → (f a files).1 ≡ files)
      → (continue r f files').1 ≡ files
  continue_same (ok a) f files' files h k = ap (λ fs. (f a fs).1) h ∙ k a
  continue_same (err e) f files' files h k = h

  pub op_same :
      (m : FileOp A) (f : A → FileOp B) (files : Files)
      → (m files).1 ≡ files
      → ((a : A) → (f a files).1 ≡ files)
      → ((m >>= f) files).1 ≡ files
  op_same m f files h k = continue_same (m files).0 f (m files).1 files h k

pub wrap_op_ok {ℓ} :
    {A : Type ℓ} (f : CaError → CaError) (m : FileOp A) (files : Files) {a : A} {files' : Files}
    → wrap_op f m files ≡ (ok a, files')
    → m files ≡ (ok a, files')
wrap_op_ok f m files h = ground (arith, wrap_err-eq-ok f (m files).0)
