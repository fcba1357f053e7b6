-- ===== src/Routes/Users/Saved.antt =====
-- routes/users.py: what the details page shows of the phone number that the form saved.
use Prim.Native.String
use secure_multi_tenant_saas.Prelude.{
  String, ◌≡◌, refl, inl, inr, Bool, true, false, not, some, ◌||◌, truthy, Bool-cases, arith,
  if◌then◌else◌,
}
use secure_multi_tenant_saas.Prelude.Text.{startswith, startswith-append, startswith-after_prefix}
use secure_multi_tenant_saas.Prelude.Exec.{ok, and_then, and_then-eq-ok, ok-injective}
use secure_multi_tenant_saas.Config.{Config}
use secure_multi_tenant_saas.Rds.Row.{UserRow}
use secure_multi_tenant_saas.Kms.{encrypt_field, decrypt_field}
use secure_multi_tenant_saas.Kms.Inverse.{HasInverses, decrypt_field-encrypt_field}
use secure_multi_tenant_saas.Routes.{Backend}
use secure_multi_tenant_saas.Routes.Users.{readable}

if_same : {A : Type 0} (b : Bool) (a : A) → (if b then a else a) ≡ a
if_same true a = refl
if_same false a = refl

module _ {X S Bytes : Type 0} (Bill : Type 0) (config : Config) (backend : Backend X S Bytes)
    (laws : HasInverses backend.codecs) where
  marked :
      (row : UserRow) (rest phone : String)
      → decrypt_field config backend.codecs (String.◌++◌ "demo-enc:" rest) ≡ ok phone
      → readable Bill config backend (some (record row { phone = String.◌++◌ "demo-enc:" rest }))
        ≡ ok (some (record row { phone = phone }))
  unfolding readable
  marked row rest phone h = rw (startswith-append "demo-enc:" rest, h) refl

  unmarked :
      (row : UserRow) (sealed : String)
      → startswith sealed "demo-enc:" ≡ false
      → startswith sealed "enc:" ≡ false
      → readable Bill config backend (some (record row { phone = sealed }))
        ≡ ok (some (record row { phone = sealed }))
  unfolding readable
  unmarked row sealed h k = rw (h, k) refl

  kms_unmarked :
      (row : UserRow) (phone sealed : String)
      → and_then
          (backend.codecs.kms_encrypt config.kms_key_id (backend.codecs.encode phone))
          (λ blob. ok (backend.codecs.b64encode blob))
        ≡ ok sealed
      → readable Bill config backend (some (record row { phone = sealed }))
        ≡ ok (some (record row { phone = sealed }))
  kms_unmarked row phone sealed h =
      let (blob, encrypted, given) =
        and_then-eq-ok (backend.codecs.kms_encrypt config.kms_key_id (backend.codecs.encode phone))
          (λ blob. ok (backend.codecs.b64encode blob)) h in
      let same = ok-injective given in
      let (demo, old) = laws.alphabet blob in
      rw⁻¹ same (
        unmarked row (backend.codecs.b64encode blob) (startswith-after_prefix _ "demo-enc:" demo)
          (startswith-after_prefix _ "enc:" old))

  demo_marked :
      (row : UserRow) (phone sealed : String)
      → String.◌++◌ "demo-enc:" (backend.codecs.b64encode (backend.codecs.encode phone)) ≡ sealed
      → encrypt_field config backend.codecs phone ≡ ok sealed
      → readable Bill config backend (some (record row { phone = sealed }))
        ≡ ok (some (record row { phone = phone }))
  demo_marked row phone sealed same h =
      let rest = backend.codecs.b64encode (backend.codecs.encode phone) in
      rw⁻¹ same (
        marked row rest phone
          (rw same (decrypt_field-encrypt_field config backend.codecs laws phone sealed h)))

  empty_unmarked :
      (row : UserRow) (sealed : String)
      → truthy sealed ≡ false
      → readable Bill config backend (some (record row { phone = sealed }))
        ≡ ok (some (record row { phone = sealed }))
  unfolding readable startswith
  empty_unmarked row String.[] h = refl
  empty_unmarked row (String.◌∷◌ c s) h = cc

  -- A phone number that was encrypted without an error is shown by the details page as it was typed
  -- in demo mode and without a KMS key, and with a key as the ciphertext itself, if the codecs are
  -- inverses and base64 has neither mark.
  pub readable-encrypt_field :
      (row : UserRow) (phone sealed : String)
      → encrypt_field config backend.codecs phone ≡ ok sealed
      → readable Bill config backend (some (record row { phone = sealed }))
        ≡ ok (
            some (record row {
              phone = if config.demo_mode || not (truthy config.kms_key_id) then phone else sealed;
            }))
  unfolding encrypt_field
  readable-encrypt_field row phone sealed h = elim (Bool-cases (truthy phone)) [
    | inl full ↦ elim (Bool-cases (config.demo_mode || not (truthy config.kms_key_id))) [
      | inl demo ↦ rw demo (demo_marked row phone sealed (ok-injective (ground arith)) h)
      | inr live ↦ rw live (kms_unmarked row phone sealed (ground arith))
    ]
    | inr empty ↦
        let same : phone ≡ sealed = ok-injective (ground arith) in
        rw (same, if_same (config.demo_mode || not (truthy config.kms_key_id)) sealed)
          (empty_unmarked row sealed cc)
  ]
