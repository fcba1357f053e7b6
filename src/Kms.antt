-- ===== src/Kms.antt =====
-- Flask app/tenant-saas-app-fixed/tenant-saas-app/services/kms_service.py: the encryption of fields.
-- UTF-8, base64 and KMS are parameters, on a type of bytes.
pub mod Inverse
use Prim.Native.String
use secure_multi_tenant_saas.Prelude.{
  String, Bool, true, false, not, Option, none, some, ◌||◌, truthy, if◌then◌else◌,
}
use secure_multi_tenant_saas.Prelude.Text.{after_prefix}
use secure_multi_tenant_saas.Prelude.Exec.{Result, ok, and_then}
use secure_multi_tenant_saas.Config.{Config}

-- `str.encode`, `bytes.decode`, `base64`, and the calls of the client with a key and a text.
pub record Codecs (Bytes : Type 0) : Type 0 where
  pub encode : String → Bytes
  pub decode : Bytes → Result String
  pub b64encode : Bytes → String
  pub b64decode : String → Result Bytes
  pub kms_encrypt : String → Bytes → Result Bytes
  pub kms_decrypt : String → Bytes → Result Bytes

abbrev pub demo_prefix : String
demo_prefix = "demo-enc:"

module _ {Bytes : Type 0} (config : Config) (codecs : Codecs Bytes) where
  unfoldable pub encrypt_field : String → Result String
  encrypt_field plaintext =
      if not (truthy plaintext)
      then ok plaintext
      else if config.demo_mode || not (truthy config.kms_key_id)
      then ok (String.◌++◌ demo_prefix (codecs.b64encode (codecs.encode plaintext)))
      else and_then (codecs.kms_encrypt config.kms_key_id (codecs.encode plaintext))
          λ blob. ok (codecs.b64encode blob)

  -- What is after the prefix is decoded; without it KMS decrypts.
  decrypt_rest : String → Option String → Result String
  decrypt_rest ciphertext (some rest) = and_then (codecs.b64decode rest) codecs.decode
  decrypt_rest ciphertext none =
      and_then (codecs.b64decode ciphertext)
        λ blob. and_then (codecs.kms_decrypt config.kms_key_id blob) codecs.decode

  unfoldable pub decrypt_field : String → Result String
  unfolding decrypt_rest
  decrypt_field ciphertext =
      if not (truthy ciphertext)
      then ok ciphertext
      else decrypt_rest ciphertext (after_prefix demo_prefix ciphertext)
