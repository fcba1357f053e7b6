-- ===== src/Kms/Inverse.antt =====
-- kms_service.py: what is encrypted is decrypted to the same text.
use Prim.Native.String
use secure_multi_tenant_saas.Prelude.{
  String, ◌≡◌, refl, sym, inl, inr, true, not, none, ◌||◌, truthy, Bool-cases, arith,
}
use secure_multi_tenant_saas.Prelude.Text.{after_prefix, after_prefix-append, truthy-append}
use secure_multi_tenant_saas.Prelude.Exec.{ok, and_then, and_then-eq-ok, ok-injective}
use secure_multi_tenant_saas.Config.{Config}
use secure_multi_tenant_saas.Kms.{Codecs, demo_prefix, encrypt_field, decrypt_field, decrypt_rest}

-- What is documented of the codecs: decoding is the inverse of encoding, KMS decrypts its own
-- ciphertexts, which are not empty, and base64 has neither a dash nor a colon.
pub record HasInverses {Bytes : Type 0} (codecs : Codecs Bytes) : Type 0 where
  pub utf8 : (s : String) → codecs.decode (codecs.encode s) ≡ ok s
  pub base64 : (b : Bytes) → codecs.b64decode (codecs.b64encode b) ≡ ok b
  pub kms :
      (key : String) (b blob : Bytes)
      → codecs.kms_encrypt key b ≡ ok blob
      → (codecs.kms_decrypt key blob ≡ ok b) × (truthy (codecs.b64encode blob) ≡ true)
  pub alphabet :
      (b : Bytes)
      → (after_prefix demo_prefix (codecs.b64encode b) ≡ none)
        × (after_prefix "enc:" (codecs.b64encode b) ≡ none)

module _ {Bytes : Type 0} (config : Config) (codecs : Codecs Bytes)
    (laws : HasInverses codecs) where
  demo_round_trip :
      (s : String)
      → decrypt_field config codecs (String.◌++◌ demo_prefix (codecs.b64encode (codecs.encode s)))
        ≡ ok s
  unfolding decrypt_field decrypt_rest
  demo_round_trip s =
      let rest = codecs.b64encode (codecs.encode s) in
      rw
        (
          truthy-append demo_prefix rest refl,
          after_prefix-append demo_prefix rest,
          laws.base64,
          laws.utf8,
        )
        refl

  kms_round_trip :
      (s ciphertext : String)
      → and_then
          (codecs.kms_encrypt config.kms_key_id (codecs.encode s))
          (λ blob. ok (codecs.b64encode blob))
        ≡ ok ciphertext
      → decrypt_field config codecs ciphertext ≡ ok s
  unfolding decrypt_field decrypt_rest
  kms_round_trip s ciphertext h =
      let (blob, sealed, given) = and_then-eq-ok _ _ h in
      let (opened, full) = laws.kms config.kms_key_id (codecs.encode s) blob sealed in
      let same = ok-injective given in
      rw (sym same, full, (laws.alphabet blob).0, laws.base64 blob, opened, laws.utf8 s) refl

  -- Whatever text is encrypted without an error, in demo mode or with KMS, is decrypted to that
  -- text, if decoding inverts encoding, KMS decrypts what it encrypted and base64 does not begin with
  -- the mark of demo mode or with "enc:".
  pub decrypt_field-encrypt_field :
      (s ciphertext : String)
      → encrypt_field config codecs s ≡ ok ciphertext
      → decrypt_field config codecs ciphertext ≡ ok s
  unfolding encrypt_field decrypt_field
  decrypt_field-encrypt_field s ciphertext h = elim (Bool-cases (truthy s)) [
    | inl full ↦ elim (Bool-cases (config.demo_mode || not (truthy config.kms_key_id))) [
      | inl demo ↦ ground (arith, demo_round_trip s)
      | inr live ↦ kms_round_trip s ciphertext (ground arith)
    ]
    | inr empty ↦ ground arith
  ]
