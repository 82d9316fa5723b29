-- ===== src/Common/Numerals/Reading.antt =====
-- strconv.ParseInt with base 10 and 64 bits, and that it reads what strconv.Itoa writes.
use webull.Common.{
  ℕ, zero, suc, ◌+◌, ◌-◌, ◌*◌, ◌/◌, ◌%◌, ◌≤◌, ◌<◌, String, ◌≡◌, refl, ap, ◌∙◌, ◌⊎◌, inl, inr, Bool,
  false, ◌&&◌, Option, none, some, List, [], ◌∷◌, arith, ltb, leb, beq, if◌then◌else◌, ltb→lt,
  Bool-cases, codes, All,
}
use webull.Common.Int.{ℤ, pos, negsuc}
use webull.Common.Numerals.{digit, numeral, itoa}
use Prim.Native.String.{◌++◌ as ◌<>◌}
use Prim.Native.String.append
use Prim.Native.Char.{Char}

abbrev is_digit : ℕ → Bool
is_digit c = leb b'0' c && leb c b'9'

-- The number whose digits so far are `n`.
abbrev read_digits : ℕ → List ℕ → Option ℕ
read_digits n [] = some n
read_digits n (c ∷ cs) =
    let rest = read_digits (n * 10 + (c - b'0')) cs in if is_digit c then rest else none

abbrev read_natural : List ℕ → Option ℕ
read_natural [] = none
read_natural (c ∷ cs) = read_digits 0 (c ∷ cs)

abbrev bounded : ℕ → ℤ → ℕ → Option ℤ
bounded limit z n = if leb n limit then some z else none

abbrev pub max_int64 : ℕ
max_int64 = 9223372036854775807

abbrev positive : Option ℕ → Option ℤ
positive none = none
positive (some n) = if leb n max_int64 then some (pos n) else none

-- -n
abbrev negate : ℕ → ℤ
negate zero = pos 0
negate (suc n) = negsuc n

abbrev negative : Option ℕ → Option ℤ
negative none = none
negative (some n) = if leb n (max_int64 + 1) then some (negate n) else none

abbrev pub parse_codes : List ℕ → Option ℤ
parse_codes [] = none
parse_codes (c ∷ cs) =
    if beq c b'-'
    then negative (read_natural cs)
    else if beq c b'+'
    then positive (read_natural cs)
    else positive (read_natural (c ∷ cs))

unfoldable pub parse_int : String → Option ℤ
parse_int s = parse_codes (codes s)

single_append : (c : Char) (s : String) → String.◌∷◌ c String.[] <> s ≡ String.◌∷◌ c s
single_append c s = (λ i. append.cons c String.[] s i) ∙ (λ i. String.◌∷◌ c (append.nil s i))

digit-code : (d : ℕ) (s : String) → d < 10 → codes (digit d <> s) ≡ (b'0' + d) ∷ codes s
digit-code zero s h = ap codes (single_append "0" s)
digit-code (suc zero) s h = ap codes (single_append "1" s)
digit-code (suc (suc zero)) s h = ap codes (single_append "2" s)
digit-code (suc (suc (suc zero))) s h = ap codes (single_append "3" s)
digit-code (suc (suc (suc (suc zero)))) s h = ap codes (single_append "4" s)
digit-code (suc (suc (suc (suc (suc zero))))) s h = ap codes (single_append "5" s)
digit-code (suc (suc (suc (suc (suc (suc zero)))))) s h = ap codes (single_append "6" s)
digit-code (suc (suc (suc (suc (suc (suc (suc zero))))))) s h = ap codes (single_append "7" s)
digit-code (suc (suc (suc (suc (suc (suc (suc (suc zero)))))))) s h = ap codes (single_append "8" s)
digit-code (suc (suc (suc (suc (suc (suc (suc (suc (suc zero))))))))) s h =
    ap codes (single_append "9" s)
digit-code (suc (suc (suc (suc (suc (suc (suc (suc (suc (suc n)))))))))) s h =
    absurd (omega (arith, h))

read_digit :
    (n d m : ℕ) (cs : List ℕ)
    → d < 10
    → n * 10 + d ≡ m
    → read_digits n ((b'0' + d) ∷ cs) ≡ read_digits m cs
read_digit n d m cs h e = ground arith

-- The digits of a number are read behind those in front of them, none at the start.
read-numeral :
    (fuel n : ℕ) (rest : String)
    → n < fuel
    → read_digits 0 (codes (numeral fuel n rest)) ≡ read_digits n (codes rest)
unfolding numeral
read-numeral zero n rest h = absurd (omega (arith, h))
read-numeral (suc fuel) n rest h = elim (Bool-cases (ltb n 10)) [
  | inl e ↦
      let b : n < 10 = ltb→lt n 10 e in
      rw (e, digit-code n rest b) (read_digit 0 n n (codes rest) b (omega arith))
  | inr e ↦
      let b : n % 10 < 10 = omega arith in
      rw e (
        read-numeral fuel (n / 10) (digit (n % 10) <> rest) (ground (arith, e, h))
        ∙ ap (λ cs. read_digits (n / 10) cs) (digit-code (n % 10) rest b)
        ∙ read_digit (n / 10) (n % 10) n (codes rest) b (omega arith))
]

abbrev StartsWithDigit : List ℕ → Type 0
StartsWithDigit [] = ⊥
StartsWithDigit (c ∷ cs) = (b'0' ≤ c) × (c ≤ b'9')

numeral-StartsWithDigit :
    (fuel n : ℕ) (rest : String) → n < fuel → StartsWithDigit (codes (numeral fuel n rest))
unfolding numeral
numeral-StartsWithDigit zero n rest h = absurd (omega (arith, h))
numeral-StartsWithDigit (suc fuel) n rest h = elim (Bool-cases (ltb n 10)) [
  | inl e ↦ let b : n < 10 = ltb→lt n 10 e in rw (e, digit-code n rest b) (omega arith)
  | inr e ↦
      rw e (numeral-StartsWithDigit fuel (n / 10) (digit (n % 10) <> rest) (ground (arith, e, h)))
]

signed_digits :
    (cs : List ℕ) (n : ℕ)
    → StartsWithDigit cs
    → read_digits 0 cs ≡ some n
    → (parse_codes cs ≡ positive (some n)) × (read_natural cs ≡ some n)
signed_digits [] n h e = elim h [ ]
signed_digits (c ∷ cs) n h e =
    let minus : beq c b'-' ≡ false = ground (arith, h) in
    let plus : beq c b'+' ≡ false = ground (arith, h) in (rw (minus, plus, e) refl, e)

abbrev pub IsInt64 : ℤ → Type 0
IsInt64 (pos n) = n ≤ max_int64
IsInt64 (negsuc n) = n ≤ max_int64

pub parse_codes-itoa : (z : ℤ) → IsInt64 z → parse_codes (codes (itoa z)) ≡ some z
unfolding parse_int itoa
parse_codes-itoa (pos n) h =
    (signed_digits (codes (numeral (suc n) n "")) n
      (numeral-StartsWithDigit (suc n) n "" (omega arith))
      (read-numeral (suc n) n "" (omega arith))).0
    ∙ ground (arith, h)
parse_codes-itoa (negsuc n) h =
    ap parse_codes (ap codes (single_append "-" (numeral (suc (suc n)) (suc n) "")))
    ∙ ap negative
        (signed_digits _ (suc n) (numeral-StartsWithDigit (suc (suc n)) (suc n) "" (omega arith))
          (read-numeral (suc (suc n)) (suc n) "" (omega arith))).1
    ∙ ground (arith, h)

abbrev pub IsNumeric : ℕ → Type 0
IsNumeric c = (c ≡ b'-') ⊎ ((b'0' ≤ c) × (c ≤ b'9'))

numeral-IsNumeric :
    (fuel n : ℕ) (rest : String)
    → n < fuel
    → All IsNumeric (codes rest)
    → All IsNumeric (codes (numeral fuel n rest))
unfolding numeral
numeral-IsNumeric zero n rest h a = absurd (omega (arith, h))
numeral-IsNumeric (suc fuel) n rest h a = elim (Bool-cases (ltb n 10)) [
  | inl e ↦
      let b : n < 10 = ltb→lt n 10 e in rw (e, digit-code n rest b) (inr (omega (arith, b)), a)
  | inr e ↦
      let d : n % 10 < 10 = omega arith in
      rw e (
        numeral-IsNumeric fuel (n / 10) (digit (n % 10) <> rest) (ground (arith, e, h))
          (rw (digit-code (n % 10) rest d) (inr (omega (arith, d)), a)))
]

-- What Itoa writes: digits, and a minus sign.
pub itoa-IsNumeric : (z : ℤ) → All IsNumeric (codes (itoa z))
unfolding itoa
itoa-IsNumeric (pos n) = numeral-IsNumeric (suc n) n "" (omega arith) tt
itoa-IsNumeric (negsuc n) =
    rw (single_append "-" (numeral (suc (suc n)) (suc n) ""))
      (inl refl, numeral-IsNumeric (suc (suc n)) (suc n) "" (omega arith) tt)

pub parse_int-itoa : (z : ℤ) → IsInt64 z → parse_int (itoa z) ≡ some z
unfolding parse_int
parse_int-itoa z h = parse_codes-itoa z h
