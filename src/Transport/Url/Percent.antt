-- ===== src/Transport/Url/Percent.antt =====
-- Percent-encoded bytes read back: what undoes query_escape of Transport.Url, and the escaping of signed
-- texts (internal/signing/signing.go).
use webull.Common.{ℕ, ◌+◌, ◌-◌, ◌*◌, ◌<◌, ◌≡◌, [], ◌∷◌, arith, leb, beq, if◌then◌else◌}
use webull.Transport.Url.{Bytes, hex_digit}

-- "%" and two hexadecimal digits stand for a byte, "+" for `plus`, any other byte for itself.
pub data Reading : Type 0 where
  plain : Reading
  percent : Reading
  half : ℕ → Reading

abbrev digit_value : ℕ → ℕ
digit_value c = if leb c b'9' then c - b'0' else c - b'A' + 10

abbrev next : Reading → ℕ → Reading
next plain c = if beq c b'%' then percent else plain
next percent c = half (digit_value c)
next (half n) c = plain

abbrev emit : ℕ → Reading → ℕ → Bytes → Bytes
emit plus plain c rest = if beq c b'%' then rest else if beq c b'+' then plus ∷ rest else c ∷ rest
emit plus percent c rest = rest
emit plus (half n) c rest = (n * 16 + digit_value c) ∷ rest

abbrev read : ℕ → Reading → Bytes → Bytes
read plus r [] = []
read plus r (c ∷ cs) = emit plus r c (read plus (next r c) cs)

abbrev pub unescape : ℕ → Bytes → Bytes
unescape plus s = read plus plain s

pub hex_digit-value : (n : ℕ) → n < 16 → digit_value (hex_digit n) ≡ n
unfolding hex_digit
hex_digit-value n h = ground arith
