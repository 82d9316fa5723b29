-- ===== src/Connect/Lifetimes.antt =====
-- The lifetimes of a token as JSON: flexInt64 of connect/connect.go.
use webull.Common.{
  ◌++◌, ◌≤◌, ◌≡◌, refl, false, ◌&&◌, ◌||◌, Option, none, some, [], ◌∷◌, arith, beq, if◌then◌else◌,
  codes, length, is_empty, All,
}
use webull.Common.Int.{ℤ, pos}
use webull.Common.Numerals.{itoa}
use webull.Common.Numerals.Reading.{
  parse_codes, IsInt64, parse_codes-itoa, IsNumeric, itoa-IsNumeric,
}
use webull.Errors.{Result, text, wrap, ok, err}
use webull.Transport.Url.{Bytes, same_bytes}

abbrev drop_quotes : Bytes → Bytes
drop_quotes [] = []
drop_quotes (c ∷ cs) = let rest = drop_quotes cs in if beq c b'"' then rest else c ∷ cs

abbrev drop_last_quotes : Bytes → Bytes
drop_last_quotes [] = []
drop_last_quotes (c ∷ cs) =
    let rest = drop_last_quotes cs in if is_empty rest && beq c b'"' then [] else c ∷ rest

-- strings.Trim(s, `"`)
unfoldable pub trim_quotes : Bytes → Bytes
trim_quotes s = drop_last_quotes (drop_quotes s)

abbrev parsed_int : Option ℤ → Result ℤ
parsed_int (some n) = ok n
parsed_int none = err (wrap "connect: parsing as an integer" (text "strconv.ParseInt"))

abbrev integer_of : Bytes → Result ℤ
integer_of s =
    if is_empty s || same_bytes s (codes "null") then ok (pos 0) else parsed_int (parse_codes s)

-- flexInt64.UnmarshalJSON, on the bytes of a JSON value.
unfoldable pub flex_int : Bytes → Result ℤ
flex_int s = integer_of (trim_quotes s)

abbrev quoted : Bytes → Bytes
quoted s = b'"' ∷ s ++ (b'"' ∷ [])

drop_last_quotes-bare : (s : Bytes) → All IsNumeric s → drop_last_quotes s ≡ s
drop_last_quotes-bare [] a = refl
drop_last_quotes-bare (c ∷ cs) (h, a) =
    let n : beq c b'"' ≡ false = ground (arith, h) in
    rw (n, drop_last_quotes-bare cs a) (ground arith)

drop_last_quotes-quoted : (s : Bytes) → All IsNumeric s → drop_last_quotes (s ++ (b'"' ∷ [])) ≡ s
drop_last_quotes-quoted [] a = refl
drop_last_quotes-quoted (c ∷ cs) (h, a) =
    let n : beq c b'"' ≡ false = ground (arith, h) in
    rw (n, drop_last_quotes-quoted cs a) (ground arith)

drop_quotes-bare : (s : Bytes) → All IsNumeric s → drop_quotes s ≡ s
drop_quotes-bare [] a = refl
drop_quotes-bare (c ∷ cs) (h, a) = ground (arith, h)

trim_quotes-numeric :
    (s : Bytes)
    → All IsNumeric s
    → 1 ≤ length s
    → (trim_quotes s ≡ s) × (trim_quotes (quoted s) ≡ s)
unfolding trim_quotes
trim_quotes-numeric [] a n = absurd (omega arith)
trim_quotes-numeric (c ∷ cs) (h, a) n =
    let m : beq c b'"' ≡ false = ground (arith, h) in
    (rw m (drop_last_quotes-bare (c ∷ cs) (h, a)), rw m (drop_last_quotes-quoted (c ∷ cs) (h, a)))

integer_of-numeric :
    (s : Bytes) (z : ℤ)
    → All IsNumeric s
    → parse_codes s ≡ some z
    → (integer_of s ≡ ok z) × (1 ≤ length s)
integer_of-numeric [] z a e = absurd (cc)
integer_of-numeric (c ∷ cs) z (h, a) e =
    let n : beq c b'n' ≡ false = ground (arith, h) in (rw (n, e) refl, omega arith)

-- A lifetime of 64 bits is read alike from a bare JSON number and from a quoted one, and as the number
-- that was written.
pub flex_int-itoa :
    (z : ℤ)
    → IsInt64 z
    → (flex_int (codes (itoa z)) ≡ ok z) × (flex_int (quoted (codes (itoa z))) ≡ ok z)
unfolding flex_int
flex_int-itoa z h =
    let s = codes (itoa z) in
    let a = itoa-IsNumeric z in
    let (i, n) = integer_of-numeric s z a (parse_codes-itoa z h) in
    let (b, q) = trim_quotes-numeric s a n in (rw b i, rw q i)
