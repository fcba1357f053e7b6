-- ===== src/Metering/Json.antt =====
-- What `json.loads` gives for the body of a message, as far as handler.py looks at it.
use secure_multi_tenant_saas.Prelude.{
  ℕ, ◌/◌, ◌^◌, zero, suc, String, Bool, true, false, leb, truthy, if◌then◌else◌,
}
use secure_multi_tenant_saas.Prelude.Dict.{Dict}
use secure_multi_tenant_saas.Prelude.Int.{ℤ, pos, negsuc}
use secure_multi_tenant_saas.Prelude.Exec.{Result, ok, err, value_error, type_error}

-- A finite float is m / 2 ^ e. An array or object within an event is kept as the text that `str`
-- makes of it.
pub data Json : Type 0 where
  null nan infinity minus_infinity : Json
  bool : Bool → Json
  int : ℤ → Json
  float : ℤ → ℕ → Json
  str : String → Json
  nested : String → Json

-- A message's body: an object, another value, or no JSON.
pub data Body : Type 0 where
  object : Dict Json → Body
  other_value malformed : Body

abbrev positive : ℤ → Bool
positive (pos n) = leb 1 n
positive (negsuc n) = false

-- `isinstance(v, (int, float)) and not v <= 0`; every comparison with NaN is false.
abbrev pub is_positive_number : Json → Bool
is_positive_number (bool b) = b
is_positive_number (int n) = positive n
is_positive_number (float m e) = positive m
is_positive_number nan = true
is_positive_number infinity = true
is_positive_number _ = false

-- `isinstance(v, int)`; a Boolean is an `int`.
abbrev pub is_int : Json → Bool
is_int (bool b) = true
is_int (int n) = true
is_int _ = false

abbrev negative : ℕ → ℤ
negative zero = pos 0
negative (suc n) = negsuc n

-- A float cut off at the point.
abbrev truncate : ℤ → ℕ → ℤ
truncate (pos m) e = pos (m / 2 ^ e)
truncate (negsuc m) e = negative (suc m / 2 ^ e)

-- `int(v)`, where the text of a string is not read: `_validate` lets none through.
abbrev pub to_int : Json → Result ℤ
to_int (bool b) = ok (pos (if b then 1 else 0))
to_int (int n) = ok n
to_int (float m e) = ok (truncate m e)
to_int nan = err value_error
to_int infinity = err value_error
to_int minus_infinity = err value_error
to_int _ = err type_error

-- `v in (None, "")`
abbrev pub is_blank : Json → Bool
is_blank null = true
is_blank (str s) = if truthy s then false else true
is_blank _ = false
