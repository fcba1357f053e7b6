-- ===== src/Password.antt =====
-- Flask app/tenant-saas-app-fixed/tenant-saas-app/routes/password.py: the rules for a new password.
-- The decimal digits outside ASCII, which `\d` of a regular expression takes too, are a parameter.
pub mod Rules
pub mod Temporary
use Prim.Native.String
use secure_multi_tenant_saas.Prelude.{
  ℕ, zero, suc, String, Char, code, Bool, true, false, not, List, [], ◌∷◌, ◌++◌, ◌&&◌, ◌||◌, ◌==◌,
  leb, ltb, if◌then◌else◌,
}
use secure_multi_tenant_saas.Prelude.Text.{has_char}

-- `len(s)`
abbrev pub text_length : String → ℕ
text_length String.[] = 0
text_length (String.◌∷◌ c s) = suc (text_length s)

-- `any(p(c) for c in s)`
unfoldable pub any_char : (Char → Bool) → String → Bool
any_char p String.[] = false
any_char p (String.◌∷◌ c s) = p c || any_char p s

unfoldable pub is_upper : Char → Bool
is_upper c = leb b'A' (code c) && leb (code c) b'Z'

unfoldable pub is_lower : Char → Bool
is_lower c = leb b'a' (code c) && leb (code c) b'z'

unfoldable pub is_ascii_digit : Char → Bool
is_ascii_digit c = leb b'0' (code c) && leb (code c) b'9'

unfoldable pub is_digit : (Char → Bool) → Char → Bool
is_digit other_digit c = is_ascii_digit c || other_digit c

abbrev pub symbols : String
symbols = "!@#$%^&*()_-+=[]{};:'\",.<>/?"

unfoldable pub is_symbol : Char → Bool
is_symbol c = has_char (code c) symbols

-- `if b: errors.append(message)`
abbrev error_if : Bool → String → List String
error_if true message = message ∷ []
error_if false message = []

unfoldable pub password_errors : (Char → Bool) → String → String → List String
password_errors other_digit password confirm =
    error_if (ltb (text_length password) 10) "Password must be at least 10 characters long."
    ++ (error_if (not (any_char is_upper password))
          "Password must include at least one uppercase letter."
        ++ (error_if (not (any_char is_lower password))
              "Password must include at least one lowercase letter."
            ++ (error_if (not (any_char (is_digit other_digit) password))
                  "Password must include at least one number."
                ++ (error_if (not (any_char is_symbol password))
                      "Password must include at least one special character."
                    ++ error_if (not (password == confirm))
                        "New password and confirmation do not match."))))
