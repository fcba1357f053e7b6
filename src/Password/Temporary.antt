-- ===== src/Password/Temporary.antt =====
-- Flask app/tenant-saas-app-fixed/tenant-saas-app/services/cognito_service.py,
-- `_generate_temp_password`. `draw n k` is the character that `secrets.choice` gives for place k of
-- the n-th attempt; the loop has no bound there and has fuel here.
use secure_multi_tenant_saas.Prelude.{
  ℕ, zero, suc, ◌+◌, ◌≤◌, ◌<◌, String, Char, code, ◌≡◌, refl, ap, sym, Bool, true, false, Option,
  none, some, [], arith, ◌&&◌, Bool-cases, inl, inr, if◌then◌else◌,
}
use secure_multi_tenant_saas.Prelude.Text.{has_char}
use secure_multi_tenant_saas.Password.{
  text_length, any_char, is_upper, is_lower, is_ascii_digit, is_digit, is_symbol, password_errors,
}
use secure_multi_tenant_saas.Password.Rules.{IsStrong, password_errors-eq-nil_iff}

abbrev pub Draw : Type 0
Draw = ℕ → ℕ → Char

-- The characters of an attempt, from place k on.
unfoldable pub attempt : Draw → ℕ → ℕ → ℕ → String
attempt draw n k zero = String.[]
attempt draw n k (suc length) = String.◌∷◌ (draw n k) (attempt draw n (suc k) length)

-- `c in "!@#$%^&*"`
unfoldable pub is_temp_symbol : Char → Bool
is_temp_symbol c = has_char (code c) "!@#$%^&*"

unfoldable pub is_accepted : String → Bool
is_accepted pw =
    any_char is_lower pw
    && any_char is_upper pw
    && any_char is_ascii_digit pw
    && any_char is_temp_symbol pw

-- The loop, from the n-th attempt on.
unfoldable pub generate_temp_password : ℕ → Draw → ℕ → ℕ → Option String
unfolding attempt is_accepted
generate_temp_password zero draw length n = none
generate_temp_password (suc fuel) draw length n =
    let rest = generate_temp_password fuel draw length (suc n) in
    if is_accepted (attempt draw n 0 length) then some (attempt draw n 0 length) else rest

length-attempt : (draw : Draw) (n k length : ℕ) → text_length (attempt draw n k length) ≡ length
unfolding attempt
length-attempt draw n k zero = refl
length-attempt draw n k (suc length) = ap suc (length-attempt draw n (suc k) length)

any_char_mono :
    (p q : Char → Bool) (s : String)
    → ((c : Char) → p c ≡ true → q c ≡ true)
    → any_char p s ≡ true
    → any_char q s ≡ true
unfolding any_char
any_char_mono p q String.[] h e = cc
any_char_mono p q (String.◌∷◌ c s) h e = ground (arith, h c, any_char_mono p q s h)

temp_symbol-is_symbol : (c : Char) → is_temp_symbol c ≡ true → is_symbol c ≡ true
unfolding is_temp_symbol is_symbol has_char
temp_symbol-is_symbol c h = ground arith

accepted-has :
    (pw : String)
    → is_accepted pw ≡ true
    → ((any_char is_lower pw ≡ true) × (any_char is_upper pw ≡ true))
      × ((any_char is_ascii_digit pw ≡ true) × (any_char is_temp_symbol pw ≡ true))
unfolding is_accepted
accepted-has pw h = ((ground arith, ground arith), (ground arith, ground arith))

ascii-is_digit :
    (other_digit : Char → Bool) (c : Char) → is_ascii_digit c ≡ true → is_digit other_digit c ≡ true
unfolding is_digit
ascii-is_digit other_digit c h = ground arith

accepted-IsStrong :
    (other_digit : Char → Bool) (pw : String)
    → 10 ≤ text_length pw
    → is_accepted pw ≡ true
    → IsStrong other_digit pw
accepted-IsStrong other_digit pw l h =
    let ((low, up), (dig, symb)) = accepted-has pw h in
    record {
      long = l;
      upper = up;
      lower = low;
      digit =
          any_char_mono is_ascii_digit (is_digit other_digit) pw (ascii-is_digit other_digit) dig;
      symbol = any_char_mono is_temp_symbol is_symbol pw temp_symbol-is_symbol symb;
    }

-- A password of the length that passes the rules for new passwords.
abbrev pub IsUsable : (Char → Bool) → ℕ → Option String → Type 0
IsUsable other_digit length none = ⊥
IsUsable other_digit length (some pw) =
    (text_length pw ≡ length) × (password_errors other_digit pw pw ≡ [])

module _ (draw : Draw) (other_digit : Char → Bool) (length : ℕ) where
  first-IsUsable :
      (n : ℕ) (rest : Option String)
      → 10 ≤ length
      → (is_accepted (attempt draw n 0 length) ≡ false → IsUsable other_digit length rest)
      → IsUsable other_digit length
          (if is_accepted (attempt draw n 0 length) then some (attempt draw n 0 length) else rest)
  first-IsUsable n rest l h = elim (Bool-cases (is_accepted (attempt draw n 0 length))) [
    | inl passes ↦ rw passes (
      length-attempt draw n 0 length,
      (password_errors-eq-nil_iff other_digit _ _).1
          (accepted-IsStrong other_digit _ (rw (length-attempt draw n 0 length) l) passes, refl),
    )
    | inr fails ↦ rw fails (h fails)
  ]

  plus_zero : (n : ℕ) → n + 0 ≡ n
  plus_zero n = omega arith

  shift : (n k : ℕ) → n + suc k ≡ suc n + k
  shift n k = omega arith

  -- From a length of 10 on, the loop ends within the fuel when one of the attempts that the fuel
  -- allows is accepted, and then the password has the length asked for and passes the rules that
  -- password.py sets for new passwords.
  pub generate_temp_password-IsUsable :
      (fuel n k : ℕ)
      → 10 ≤ length
      → k < fuel
      → is_accepted (attempt draw (n + k) 0 length) ≡ true
      → IsUsable other_digit length (generate_temp_password fuel draw length n)
  unfolding generate_temp_password
  generate_temp_password-IsUsable zero n k l lt h = ground arith
  generate_temp_password-IsUsable (suc fuel) n zero l lt h =
      first-IsUsable n _ l (λ fails. grind (arith, plus_zero n))
  generate_temp_password-IsUsable (suc fuel) n (suc k) l lt h =
      first-IsUsable n _ l (λ _.
        generate_temp_password-IsUsable fuel (suc n) k l (omega arith) (rw (sym (shift n k)) h))
