-- ===== src/Transport/Url/Utf8.antt =====
-- Texts read back from their UTF-8 bytes, which Transport.Url writes.
use Prim.Native.Char.{Char, char, code, nul, IsLt}
use Prim.Native.Nat.{Ordering, compare}
use webull.Common.{
  ◌/◌, ◌%◌, ℕ, zero, suc, ◌+◌, ◌-◌, ◌*◌, ◌<◌, String, ◌≡◌, refl, ap, ◌∙◌, Option, none, some, List,
  [], ◌∷◌, ◌++◌, ltb, inl, inr, Bool-cases, arith, if◌then◌else◌, codes, All, All-append, true,
  false,
}
use webull.Transport.Url.{Bytes, utf8_char, encode_codes, utf8}

-- How many bytes of a code point are to come, and what those before make of it.
abbrev next : ℕ → ℕ → ℕ → ℕ × ℕ
next zero acc c =
    if ltb c 128
    then (0, 0)
    else if ltb c 224
    then (1, c - 192)
    else if ltb c 240
    then (2, c - 224)
    else (3, c - 240)
next (suc zero) acc c = (0, 0)
next (suc (suc left)) acc c = (suc left, acc * 64 + (c - 128))

abbrev emit : ℕ → ℕ → ℕ → List ℕ → List ℕ
emit zero acc c rest = if ltb c 128 then c ∷ rest else rest
emit (suc zero) acc c rest = (acc * 64 + (c - 128)) ∷ rest
emit (suc (suc left)) acc c rest = rest

abbrev read : ℕ → ℕ → Bytes → List ℕ
read left acc [] = []
read left acc (c ∷ cs) = let s = next left acc c in emit left acc c (read s.0 s.1 cs)

read-two :
    (k m : ℕ) (rest : Bytes)
    → k < 32
    → read 0 0 ((192 + k) ∷ m ∷ rest) ≡ (k * 64 + (m - 128)) ∷ read 0 0 rest
read-two k m rest h =
    let a : ltb (192 + k) 128 ≡ false = ground arith in
    let b : ltb (192 + k) 224 ≡ true = ground arith in
    let e : 192 + k - 192 ≡ k = omega arith in rw (a, b, e) refl

read-three :
    (k m n : ℕ) (rest : Bytes)
    → k < 16
    → read 0 0 ((224 + k) ∷ m ∷ n ∷ rest) ≡ ((k * 64 + (m - 128)) * 64 + (n - 128)) ∷ read 0 0 rest
read-three k m n rest h =
    let a : ltb (224 + k) 128 ≡ false = ground arith in
    let b : ltb (224 + k) 224 ≡ false = ground arith in
    let d : ltb (224 + k) 240 ≡ true = ground arith in
    let e : 224 + k - 224 ≡ k = omega arith in rw (a, b, d, e) refl

read-four :
    (k m n o : ℕ) (rest : Bytes)
    → read 0 0 ((240 + k) ∷ m ∷ n ∷ o ∷ rest)
      ≡ (((k * 64 + (m - 128)) * 64 + (n - 128)) * 64 + (o - 128)) ∷ read 0 0 rest
read-four k m n o rest =
    let a : ltb (240 + k) 128 ≡ false = ground arith in
    let b : ltb (240 + k) 224 ≡ false = ground arith in
    let d : ltb (240 + k) 240 ≡ false = ground arith in
    let e : 240 + k - 240 ≡ k = omega arith in rw (a, b, d, e) refl

read-utf8_char :
    (c : ℕ) (rest : Bytes) → c < 2097152 → read 0 0 (utf8_char c ++ rest) ≡ c ∷ read 0 0 rest
unfolding utf8_char
read-utf8_char c rest h = elim (Bool-cases (ltb c 128)) [
  | inl a ↦ rw a (rw a refl)
  | inr a ↦ elim (Bool-cases (ltb c 2048)) [
    | inl b ↦
        rw (a, b)
          (read-two (c / 64) (128 + c % 64) rest (ground arith)
            ∙ ap (λ x. x ∷ read 0 0 rest) (omega arith))
    | inr b ↦ elim (Bool-cases (ltb c 65536)) [
      | inl d ↦
          rw (a, b, d)
            (read-three (c / 4096) (128 + c / 64 % 64) (128 + c % 64) rest (ground arith)
              ∙ ap (λ x. x ∷ read 0 0 rest) (omega arith))
      | inr d ↦
          rw (a, b, d)
            (read-four (c / 262144) (128 + c / 4096 % 64) (128 + c / 64 % 64) (128 + c % 64) rest
              ∙ ap (λ x. x ∷ read 0 0 rest) (omega arith))
    ]
  ]
]

-- `IsScalar n` is three comparisons under two helpers; these have the same clauses.
abbrev BothLt : Ordering → Ordering → Type 0
BothLt Ordering.lt o = IsLt o
BothLt Ordering.eq _ = ⊥
BothLt Ordering.gt _ = ⊥

abbrev Scalar : Ordering → Ordering → Ordering → Type 0
Scalar Ordering.lt _ _ = Unit
Scalar Ordering.eq o p = BothLt o p
Scalar Ordering.gt o p = BothLt o p

abbrev BothLt? : (o p : Ordering) → Option (BothLt o p)
BothLt? Ordering.lt Ordering.lt = some tt
BothLt? Ordering.lt Ordering.eq = none
BothLt? Ordering.lt Ordering.gt = none
BothLt? Ordering.eq p = none
BothLt? Ordering.gt p = none

abbrev scalar? : (o p q : Ordering) → Option (Scalar o p q)
scalar? Ordering.lt p q = some tt
scalar? Ordering.eq p q = BothLt? p q
scalar? Ordering.gt p q = BothLt? p q

abbrev or_nul :
    (n : ℕ) → Option (Scalar (compare n 55296) (compare 57343 n) (compare n 1114112)) → Char
or_nul n none = nul
or_nul n (some p) = char n p

-- The character of a code point; what is none stands for NUL.
abbrev char_of : ℕ → Char
char_of n = or_nul n (scalar? (compare n 55296) (compare 57343 n) (compare n 1114112))

BothLt?_lem : (o p : Ordering) (w : BothLt o p) → BothLt? o p ≡ some w
BothLt?_lem Ordering.lt Ordering.lt w = refl
BothLt?_lem Ordering.lt Ordering.eq w = absurd w
BothLt?_lem Ordering.lt Ordering.gt w = absurd w
BothLt?_lem Ordering.eq p w = absurd w
BothLt?_lem Ordering.gt p w = absurd w

scalar?_lem : (o p q : Ordering) (w : Scalar o p q) → scalar? o p q ≡ some w
scalar?_lem Ordering.lt p q w = refl
scalar?_lem Ordering.eq p q w = BothLt?_lem p q w
scalar?_lem Ordering.gt p q w = BothLt?_lem p q w

char_of-code : (c : Char) → char_of (code c) ≡ c
char_of-code (char n p) =
    ap (or_nul n) (scalar?_lem (compare n 55296) (compare 57343 n) (compare n 1114112) p)

both_lt_second : (o p : Ordering) → BothLt o p → p ≡ Ordering.lt
both_lt_second Ordering.lt Ordering.lt w = refl
both_lt_second Ordering.lt Ordering.eq w = absurd w
both_lt_second Ordering.lt Ordering.gt w = absurd w
both_lt_second Ordering.eq p w = absurd w
both_lt_second Ordering.gt p w = absurd w

scalar_bound :
    (n : ℕ) (o p : Ordering) → compare n 55296 ≡ o → Scalar o p (compare n 1114112) → n < 2097152
scalar_bound n Ordering.lt p e w = ground arith
scalar_bound n Ordering.eq p e w = ground arith
scalar_bound n Ordering.gt p e w = let f = both_lt_second p (compare n 1114112) w in ground arith

code_bound : (c : Char) → code c < 2097152
code_bound (char n p) = scalar_bound n (compare n 55296) (compare 57343 n) refl p

abbrev text_from : List ℕ → String
text_from [] = String.[]
text_from (n ∷ ns) = String.◌∷◌ (char_of n) (text_from ns)

-- The text of UTF-8 bytes.
unfoldable pub from_utf8 : Bytes → String
from_utf8 b = text_from (read 0 0 b)

-- A text is read back from its bytes.
pub from_utf8-utf8 : (s : String) → from_utf8 (utf8 s) ≡ s
unfolding from_utf8 utf8 encode_codes
from_utf8-utf8 String.[] = refl
from_utf8-utf8 (String.◌∷◌ c s) =
    rw (read-utf8_char (code c) (encode_codes (codes s)) (code_bound c), char_of-code c)
      (ap (λ t. String.◌∷◌ c t) (from_utf8-utf8 s))

utf8_char-IsBytes : (c : ℕ) → c < 2097152 → All (λ b. b < 256) (utf8_char c)
unfolding utf8_char
utf8_char-IsBytes c h = ground arith

pub utf8-IsBytes : (s : String) → All (λ b. b < 256) (utf8 s)
unfolding utf8 encode_codes
utf8-IsBytes String.[] = tt
utf8-IsBytes (String.◌∷◌ c s) =
    All-append (λ b. b < 256) (utf8_char (code c)) (encode_codes (codes s))
      (utf8_char-IsBytes (code c) (code_bound c)) (utf8-IsBytes s)
