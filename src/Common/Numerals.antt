-- ===== src/Common/Numerals.antt =====
-- strconv.Itoa and strconv.ParseInt: the decimal numeral of an integer.
pub mod Reading
use Prim.Native.String.{◌++◌ as ◌<>◌}
use webull.Common.{ℕ, zero, suc, ◌/◌, ◌%◌, String, ◌≡◌, refl, ltb, beq, if◌then◌else◌}
use webull.Common.Int.{ℤ, pos, negsuc}

abbrev pub digit : ℕ → String
digit n =
    if beq n 0
    then "0"
    else if beq n 1
    then "1"
    else if beq n 2
    then "2"
    else if beq n 3
    then "3"
    else if beq n 4
    then "4"
    else if beq n 5
    then "5"
    else if beq n 6
    then "6"
    else if beq n 7
    then "7"
    else if beq n 8
    then "8"
    else "9"

-- The digits of `n` in front of `rest`; the fuel is the number of steps left.
unfoldable pub numeral : (fuel n : ℕ) → String → String
numeral zero n rest = rest
numeral (suc fuel) n rest =
    let more = numeral fuel (n / 10) (digit (n % 10) <> rest) in
    if ltb n 10 then digit n <> rest else more

-- A number below 2 ^ 63 has at most 19 digits; the fuel n + 1 is enough for any n.
unfoldable pub itoa : ℤ → String
unfolding numeral
itoa (pos n) = numeral (suc n) n ""
itoa (negsuc n) = "-" <> numeral (suc (suc n)) (suc n) ""

example_0 : itoa (pos 0) ≡ "0"
unfolding itoa
example_0 = refl

example_120 : itoa (pos 120) ≡ "120"
unfolding itoa
example_120 = refl

example_negative : itoa (negsuc 6) ≡ "-7"
unfolding itoa
example_negative = refl
