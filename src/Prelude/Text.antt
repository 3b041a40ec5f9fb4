-- ===== src/Prelude/Text.antt =====
-- Python's text operations on native strings: a string is its list of code points.
use Prim.Native.Nat.{ℕ, zero, suc, ◌+◌, ◌/◌, ◌%◌, ◌≤◌}
use Prim.Native.String.{String, ◌++◌}
use sprinter_oss.Prelude.Tests.{◌==◌, nat_eq, string_eq, if◌then◌else◌}
use mathlib.Core.Bool.{Bool, true, false, ◌&&◌}
use mathlib.Core.Path.{◌≡◌, refl}
use native.Mathlib.Omega.{arith}

-- `len(s)`.
abbrev pub chars : String → ℕ
chars String.[] = 0
chars (String.◌∷◌ c s) = suc (chars s)

-- `s[:n]`.
unfoldable pub clip : ℕ → String → String
clip zero s = ""
clip (suc n) String.[] = ""
clip (suc n) (String.◌∷◌ c s) = String.◌∷◌ c (clip n s)

pub chars-clip : (n : ℕ) (s : String) → chars (clip n s) ≤ n
unfolding clip
chars-clip zero s = omega arith
chars-clip (suc n) String.[] = omega arith
chars-clip (suc n) (String.◌∷◌ c s) = omega (arith, chars-clip n s)

-- `s.replace(old, new)`, for an `old` of one character.
unfoldable pub replace : String → String → String → String
replace old new String.[] = ""
replace old new (String.◌∷◌ c s) =
    (if String.◌∷◌ c "" == old then new else String.◌∷◌ c "") ++ replace old new s

unfoldable pub has_prefix : String → String → Bool
has_prefix String.[] s = true
has_prefix (String.◌∷◌ c p) String.[] = false
has_prefix (String.◌∷◌ c p) (String.◌∷◌ d s) = String.◌∷◌ c "" == String.◌∷◌ d "" && has_prefix p s

replace_runs : replace "_" " " "a_b" ≡ "a b"
unfolding replace
replace_runs = refl

-- The decimal digits of a number.
digit : ℕ → String
digit n =
    if n == 0
    then "0"
    else if n == 1
    then "1"
    else if n == 2
    then "2"
    else if n == 3
    then "3"
    else if n == 4
    then "4"
    else if n == 5
    then "5"
    else if n == 6
    then "6"
    else if n == 7
    then "7"
    else if n == 8
    then "8"
    else "9"

decimal_fuel : ℕ → ℕ → String → String
unfolding digit
decimal_fuel zero n rest = rest
decimal_fuel (suc fuel) n rest =
    let more = decimal_fuel fuel (n / 10) (digit (n % 10) ++ rest) in
    if n / 10 == 0 then digit (n % 10) ++ rest else more

-- `str(n)`: a number has at most as many digits as its successor counts.
unfoldable pub decimal : ℕ → String
unfolding decimal_fuel
decimal n = decimal_fuel (n + 1) n ""

decimal_runs : decimal 1048576 ≡ "1048576"
unfolding decimal
decimal_runs = refl
