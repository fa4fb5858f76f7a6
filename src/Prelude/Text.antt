-- ===== src/Prelude/Text.antt =====
-- Texts as lists of code points, and the standard library's `strconv.Atoi` and `strconv.ParseBool`.
use Prim.Native.Nat.{ℕ, ◌+◌, ◌-◌, ◌*◌, ◌^◌}
use Prim.Native.Char.{code}
use Prim.Native.String.{String}
use mathlib.Core.Bool.{Bool, true, false, ◌&&◌, ◌||◌}
use mathlib.Core.List.{List, [], ◌∷◌}
use mathlib.Core.Option
use mathlib.Core.Option.{Option, none, some}
use text.Mathlib.Text.{◌==◌ as str_eq}
use pgstorm.Prelude.Int.{ℤ, pos, negsuc}
use pgstorm.Prelude.Tests.{leb, ltb, ◌==◌, if◌then◌else◌}

-- The concatenation of two texts.
abbrev pub joined : String → String → String
joined String.[] t = t
joined (String.◌∷◌ c s) t = String.◌∷◌ c (joined s t)

abbrev pub codes : String → List ℕ
codes String.[] = []
codes (String.◌∷◌ c s) = code c ∷ codes s

-- The value of a run of decimal digits, `none` where another character stands.
unfoldable pub digits_value : ℕ → List ℕ → Option ℕ
digits_value acc [] = some acc
digits_value acc (c ∷ cs) =
    let rest = digits_value (acc * 10 + (c - b'0')) cs in
    if leb b'0' c && leb c b'9' then rest else none

-- At least one digit must stand after the sign.
unfoldable pub magnitude : List ℕ → Option ℕ
unfolding digits_value
magnitude [] = none
magnitude (c ∷ cs) = digits_value 0 (c ∷ cs)

abbrev positive : ℕ → Option ℤ
positive n = if ltb n (2 ^ 63) then some (pos n) else none

abbrev negative : ℕ → Option ℤ
negative n = if n == 0 then some (pos 0) else if leb n (2 ^ 63) then some (negsuc (n - 1)) else none

unfoldable pub atoi_codes : List ℕ → Option ℤ
unfolding magnitude Option.bind
atoi_codes [] = none
atoi_codes (c ∷ cs) =
    if c == b'-'
    then Option.bind (magnitude cs) negative
    else if c == b'+'
    then Option.bind (magnitude cs) positive
    else Option.bind (magnitude (c ∷ cs)) positive

-- `strconv.Atoi`: an optional sign and decimal digits, within the range of a 64-bit `int`.
unfoldable pub atoi : String → Option ℤ
unfolding atoi_codes
atoi s = atoi_codes (codes s)

is_one_of : String → List String → Bool
is_one_of s [] = false
is_one_of s (t ∷ ts) = str_eq s t || is_one_of s ts

-- `strconv.ParseBool`
unfoldable pub parse_bool : String → Option Bool
unfolding is_one_of
parse_bool s =
    if is_one_of s ("1" ∷ "t" ∷ "T" ∷ "TRUE" ∷ "true" ∷ "True" ∷ [])
    then some true
    else if is_one_of s ("0" ∷ "f" ∷ "F" ∷ "FALSE" ∷ "false" ∷ "False" ∷ [])
    then some false
    else none
