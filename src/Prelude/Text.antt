-- ===== src/Prelude/Text.antt =====
-- Python's `str` methods that the program uses, over the native texts.
use Prim.Native.Nat.{ℕ, zero, suc, ◌+◌, ◌-◌}
use Prim.Native.Char.{Char, code}
use Prim.Native.String
use Prim.Native.String.{String}
use text.Mathlib.TextLemmas.{nil-append, cons-append}
use mathlib.Core.Path.{◌≡◌, refl}
use mathlib.Core.Bool.{Bool, true, false, ◌&&◌, ◌||◌}
use mathlib.Core.List.{List, [], ◌∷◌}
use mathlib.Core.Option.{Option, none, some}
use native.Mathlib.Omega.{arith}
use secure_multi_tenant_saas.Prelude.Tests.{ltb, leb, eqb, truthy, if◌then◌else◌}

-- `str.isspace` of one character: what `str.strip()` takes off.
pub is_space : Char → Bool
is_space c =
    leb 9 (code c) && leb (code c) 13
    || leb 28 (code c) && leb (code c) 32
    || eqb (code c) 0x85
    || eqb (code c) 0xa0
    || eqb (code c) 0x1680
    || leb 0x2000 (code c) && leb (code c) 0x200a
    || eqb (code c) 0x2028
    || eqb (code c) 0x2029
    || eqb (code c) 0x202f
    || eqb (code c) 0x205f
    || eqb (code c) 0x3000

unfoldable pub lstrip_by : (Char → Bool) → String → String
lstrip_by p String.[] = String.[]
lstrip_by p (String.◌∷◌ c s) = let rest = lstrip_by p s in if p c then rest else String.◌∷◌ c s

-- Puts `c` in front of what is left of the rest, unless both go.
abbrev keep_front : Bool → Char → String → String
keep_front b c String.[] = if b then String.[] else String.◌∷◌ c String.[]
keep_front b c (String.◌∷◌ d s) = String.◌∷◌ c (String.◌∷◌ d s)

unfoldable pub rstrip_by : (Char → Bool) → String → String
rstrip_by p String.[] = String.[]
rstrip_by p (String.◌∷◌ c s) = keep_front (p c) c (rstrip_by p s)

unfoldable pub strip_by : (Char → Bool) → String → String
unfolding lstrip_by rstrip_by
strip_by p s = rstrip_by p (lstrip_by p s)

-- `s.strip()`
unfoldable pub strip : String → String
unfolding strip_by is_space
strip s = strip_by is_space s

-- One character, given by its code.
abbrev pub is_char : ℕ → Char → Bool
is_char n c = eqb (code c) n

-- `s.replace(c, "")`, for a character given by its code.
unfoldable pub remove_char : ℕ → String → String
remove_char n String.[] = String.[]
remove_char n (String.◌∷◌ c s) =
    let rest = remove_char n s in if eqb (code c) n then rest else String.◌∷◌ c rest

abbrev push_first : Char → List String → List String
push_first c [] = String.◌∷◌ c String.[] ∷ []
push_first c (w ∷ ws) = String.◌∷◌ c w ∷ ws

-- `s.split(c)`, for a separator given by its code.
unfoldable pub split_char : ℕ → String → List String
split_char n String.[] = String.[] ∷ []
split_char n (String.◌∷◌ c s) =
    let rest = split_char n s in if eqb (code c) n then String.[] ∷ rest else push_first c rest

-- What stands behind a prefix: `s[len(p):]` if `s.startswith(p)`.
unfoldable pub after_prefix : String → String → Option String
after_prefix String.[] s = some s
after_prefix (String.◌∷◌ d p) String.[] = none
after_prefix (String.◌∷◌ d p) (String.◌∷◌ c s) =
    let rest = after_prefix p s in if eqb (code c) (code d) then rest else none

pub after_prefix-append : (p s : String) → after_prefix p (String.◌++◌ p s) ≡ some s
unfolding after_prefix
after_prefix-append String.[] s = rw nil-append refl
after_prefix-append (String.◌∷◌ d p) s = rw cons-append (ground (arith, after_prefix-append p s))

pub truthy-append : (p s : String) → truthy p ≡ true → truthy (String.◌++◌ p s) ≡ true
truthy-append String.[] s h = cc
truthy-append (String.◌∷◌ d p) s h = rw cons-append refl

-- `s.startswith(p)`
unfoldable pub startswith : String → String → Bool
unfolding after_prefix
startswith s p = elim (after_prefix p s) [ none ↦ false | some _ ↦ true ]

pub startswith-append : (p s : String) → startswith (String.◌++◌ p s) p ≡ true
unfolding startswith
startswith-append p s = rw (startswith, after_prefix-append p s) refl

pub startswith-after_prefix : (s p : String) → after_prefix p s ≡ none → startswith s p ≡ false
unfolding startswith
startswith-after_prefix s p h = rw (startswith, h) refl

-- `len(s)`, for the texts that are looked for.
abbrev text_size : String → ℕ
text_size String.[] = 0
text_size (String.◌∷◌ c s) = suc (text_size s)

-- How many characters of `s.replace(t, "")` are still to be left out goes along.
remove_from : String → ℕ → String → String
remove_from t skip String.[] = String.[]
remove_from t (suc skip) (String.◌∷◌ c s) = remove_from t skip s
remove_from t zero (String.◌∷◌ c s) =
    let kept = remove_from t zero s in
    let cut = remove_from t (text_size t - 1) s in
    if startswith (String.◌∷◌ c s) t then cut else String.◌∷◌ c kept

-- `s.replace(t, "")`, for a text `t` that is not empty.
unfoldable pub remove_text : String → String → String
unfolding remove_from
remove_text t s = remove_from t zero s

-- `chr(n) in s`
unfoldable pub has_char : ℕ → String → Bool
has_char n String.[] = false
has_char n (String.◌∷◌ c s) = eqb (code c) n || has_char n s

-- `s.isascii()`
unfoldable pub is_ascii : String → Bool
is_ascii String.[] = true
is_ascii (String.◌∷◌ c s) = ltb (code c) 128 && is_ascii s

-- The texts of two lists of code points compared: `s <= t` of Python.
unfoldable pub text_le : String → String → Bool
text_le String.[] t = true
text_le (String.◌∷◌ c s) String.[] = false
text_le (String.◌∷◌ c s) (String.◌∷◌ d t) =
    let rest = text_le s t in
    if ltb (code c) (code d) then true else if eqb (code c) (code d) then rest else false

strips_both_ends : strip " \ta b\n " ≡ "a b"
unfolding strip
strips_both_ends = refl

splits : split_char b',' "a,,b" ≡ "a" ∷ "" ∷ "b" ∷ []
unfolding split_char
splits = refl

-- Stripping twice is stripping once, at the front.
pub lstrip_by-lstrip_by :
    (p : Char → Bool) (s : String) → lstrip_by p (lstrip_by p s) ≡ lstrip_by p s
unfolding lstrip_by
lstrip_by-lstrip_by p String.[] = refl
lstrip_by-lstrip_by p (String.◌∷◌ c s) = ground (arith, lstrip_by-lstrip_by p s)

-- `s.lower()`, as code points; only the letters of ASCII have another case here.
unfoldable pub lower : String → List ℕ
lower String.[] = []
lower (String.◌∷◌ c s) =
    (if leb b'A' (code c) && leb (code c) b'Z' then code c + 32 else code c) ∷ lower s

abbrev pub codes : String → List ℕ
codes String.[] = []
codes (String.◌∷◌ c s) = code c ∷ codes s

unfoldable pub is_prefix : List ℕ → List ℕ → Bool
is_prefix [] t = true
is_prefix (a ∷ s) [] = false
is_prefix (a ∷ s) (b ∷ t) = eqb a b && is_prefix s t

-- `s in t`, on code points.
unfoldable pub is_infix : List ℕ → List ℕ → Bool
unfolding is_prefix
is_infix s [] = is_prefix s []
is_infix s (b ∷ t) = is_prefix s (b ∷ t) || is_infix s t

-- `s.lower() == "true"`
unfoldable pub is_true_word : String → Bool
unfolding lower is_prefix
is_true_word s = is_prefix (lower s) (lower "true") && is_prefix (lower "true") (lower s)

reads_true : (is_true_word "True" ≡ true) × (is_true_word "true " ≡ false)
unfolding is_true_word
reads_true = (refl, refl)

pub text_le_refl : (s : String) → text_le s s ≡ true
unfolding text_le
text_le_refl String.[] = refl
text_le_refl (String.◌∷◌ c s) = ground (arith, text_le_refl s)
