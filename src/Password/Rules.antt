-- ===== src/Password/Rules.antt =====
-- password.py: which passwords pass.
use secure_multi_tenant_saas.Prelude.{◌≤◌, String, Char, ◌≡◌, ◌↔◌, Bool, true, [], arith, eq_iff}
use secure_multi_tenant_saas.Password.{
  text_length, any_char, is_upper, is_lower, is_digit, is_symbol, password_errors,
}

-- A character of the text has the property.
abbrev pub HasChar : (Char → Bool) → String → Type 0
HasChar p s = any_char p s ≡ true

-- What is asked of a new password.
pub record IsStrong (other_digit : Char → Bool) (password : String) : Type 0 where
  pub long : 10 ≤ text_length password
  pub upper : HasChar is_upper password
  pub lower : HasChar is_lower password
  pub digit : HasChar (is_digit other_digit) password
  pub symbol : HasChar is_symbol password

-- There is no error exactly for a strong password that the confirmation repeats.
pub password_errors-eq-nil_iff :
    (other_digit : Char → Bool) (password confirm : String)
    → (password_errors other_digit password confirm ≡ [])
      ↔ (IsStrong other_digit password × (password ≡ confirm))
unfolding password_errors
password_errors-eq-nil_iff other_digit password confirm =
    (λ h. ground (arith, eq_iff password confirm), λ h. ground (arith, eq_iff password confirm))
