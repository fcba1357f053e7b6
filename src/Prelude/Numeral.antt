-- ===== src/Prelude/Numeral.antt =====
-- Python's `int` of a text, for ASCII digits.
use Prim.Native.Nat.{ℕ, zero, suc, ◌+◌, ◌*◌, ◌-◌}
use Prim.Native.Char.{code}
use Prim.Native.String.{String}
use mathlib.Core.Path.{◌≡◌, refl}
use mathlib.Core.Bool.{Bool, true, false, ◌&&◌}
use mathlib.Core.Option.{Option, none, some}
use secure_multi_tenant_saas.Prelude.Tests.{leb, if◌then◌else◌}
use secure_multi_tenant_saas.Prelude.Text.{strip, is_char}
use secure_multi_tenant_saas.Prelude.Int.{ℤ, pos, negsuc}

-- `int(text)` of ASCII digits, with single underscores between them; `after_digit` tells whether
-- an underscore may come, or the end.
unfoldable pub digits : ℕ → Bool → String → Option ℕ
digits n after_digit String.[] = if after_digit then some n else none
digits n after_digit (String.◌∷◌ c s) =
    let next = digits (n * 10 + (code c - b'0')) true s in
    let joined = digits n false s in
    if leb b'0' (code c) && leb (code c) b'9'
    then next
    else if is_char b'_' c && after_digit
    then joined
    else none

abbrev negated : Option ℕ → Option ℤ
negated none = none
negated (some zero) = some (pos 0)
negated (some (suc n)) = some (negsuc n)

abbrev as_int : Option ℕ → Option ℤ
as_int none = none
as_int (some n) = some (pos n)

signed : String → Option ℤ
unfolding digits
signed String.[] = none
signed (String.◌∷◌ c s) =
    let unsigned = as_int (digits 0 false (String.◌∷◌ c s)) in
    let positive = as_int (digits 0 false s) in
    let negative = negated (digits 0 false s) in
    if is_char b'+' c then positive else if is_char b'-' c then negative else unsigned

-- `int(s)`; `none` is a `ValueError`.
unfoldable pub int_of : String → Option ℤ
unfolding signed
int_of s = signed (strip s)

reads_numbers : (int_of " 3306\n" ≡ some (pos 3306)) × (int_of "-1_0" ≡ some (negsuc 9))
unfolding int_of strip
reads_numbers = (refl, refl)
