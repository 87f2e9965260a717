-- ===== src/Server/Publish/Keys.antt =====
-- The keys that bundle.go publishes.
use svidmint.Base.{◌≡◌, refl, ◌==◌, eq_iff, inl, inr, Bool-cases}
use svidmint.Base.Assoc.{lookup, insert}
use svidmint.Ca.{PublicKey}
use svidmint.Server.Types.{Codec, KeyParts, ec, rsa, other_key}
use svidmint.Server.Publish.{key_fields, normalize_curve, encode_public_key}

fields_kept :
    (enc : Codec) (k : KeyParts)
    → normalize_curve (key_fields enc k) (lookup "crv" (key_fields enc k)) ≡ key_fields enc k
unfolding lookup insert
fields_kept enc (ec curve x y) = elim (Bool-cases (curve == "P-256")) [
  | inl same ↦ rw ((eq_iff curve "P-256").0 same) refl
  | inr other ↦ rw other refl
]
fields_kept enc (rsa n e) = refl
fields_kept enc other_key = refl

-- For a key of any kind, the published members are the key's type, its curve under the name that
-- Go gives it, and its numbers in base64: the normalisation of the curve's name changes nothing.
pub encode_public_key_lem :
    (enc : Codec) (key : PublicKey) → encode_public_key enc key ≡ key_fields enc (enc.key_parts key)
unfolding encode_public_key
encode_public_key_lem enc key = fields_kept enc (enc.key_parts key)
