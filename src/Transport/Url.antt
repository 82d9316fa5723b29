-- ===== src/Transport/Url.antt =====
-- Query strings: what transport.go and signing.go use of net/url, over the bytes of a text.
pub mod Utf8
pub mod Parse
pub mod Percent
use webull.Common.TextOrder.{le_text}
use webull.Common.{
  ℕ, ◌+◌, ◌-◌, ◌/◌, ◌%◌, String, ◌≡◌, refl, Bool, true, false, ◌&&◌, ◌||◌, List, [], ◌∷◌, ◌++◌, ltb,
  leb, beq, if◌then◌else◌, codes,
}

abbrev pub Bytes : Type 0
Bytes = List ℕ

-- url.Values: the values of each key, in the order in which they were added.
abbrev pub Values : Type 0
Values = List (String × List String)

-- The UTF-8 encoding of a code point.
utf8_char : ℕ → Bytes
utf8_char c =
    if ltb c 128
    then c ∷ []
    else if ltb c 2048
    then (192 + c / 64) ∷ (128 + c % 64) ∷ []
    else if ltb c 65536
    then (224 + c / 4096) ∷ (128 + c / 64 % 64) ∷ (128 + c % 64) ∷ []
    else (240 + c / 262144) ∷ (128 + c / 4096 % 64) ∷ (128 + c / 64 % 64) ∷ (128 + c % 64) ∷ []

encode_codes : List ℕ → Bytes
unfolding utf8_char
encode_codes [] = []
encode_codes (c ∷ cs) = utf8_char c ++ encode_codes cs

abbrev pub same_bytes : Bytes → Bytes → Bool
same_bytes [] [] = true
same_bytes (x ∷ xs) (y ∷ ys) = beq x y && same_bytes xs ys
same_bytes _ _ = false

unfoldable pub utf8 : String → Bytes
unfolding encode_codes
utf8 s = encode_codes (codes s)

-- Letters, digits and -_.~ stay as they are.
unfoldable pub is_unreserved : ℕ → Bool
is_unreserved c =
    leb b'A' c && leb c b'Z'
    || leb b'a' c && leb c b'z'
    || leb b'0' c && leb c b'9'
    || beq c b'-'
    || beq c b'_'
    || beq c b'.'
    || beq c b'~'

-- An upper-case hexadecimal digit.
unfoldable pub hex_digit : ℕ → ℕ
hex_digit n = if ltb n 10 then b'0' + n else b'A' + n - 10

unfoldable pub escape_byte : ℕ → Bytes
unfolding is_unreserved hex_digit
escape_byte c =
    if is_unreserved c
    then c ∷ []
    else if beq c b' '
    then b'+' ∷ []
    else b'%' ∷ hex_digit (c / 16) ∷ hex_digit (c % 16) ∷ []

-- url.QueryEscape
unfoldable pub query_escape : Bytes → Bytes
unfolding escape_byte
query_escape [] = []
query_escape (c ∷ cs) = escape_byte c ++ query_escape cs

unfoldable pub insert_key : String × List String → Values → Values
insert_key p [] = p ∷ []
insert_key p (q ∷ qs) = if le_text p.0 q.0 then p ∷ q ∷ qs else q ∷ insert_key p qs

unfoldable pub sort_keys : Values → Values
unfolding insert_key
sort_keys [] = []
sort_keys (p ∷ ps) = insert_key p (sort_keys ps)

pair : String → String → Bytes
pair k v = query_escape (utf8 k) ++ b'=' ∷ query_escape (utf8 v)

pairs_of : String → List String → List Bytes
pairs_of k [] = []
pairs_of k (v ∷ vs) = pair k v ∷ pairs_of k vs

pairs : Values → List Bytes
unfolding pair pairs_of
pairs [] = []
pairs ((k, vs) ∷ ps) = pairs_of k vs ++ pairs ps

unfoldable pub join_with : ℕ → List Bytes → Bytes
join_with sep [] = []
join_with sep (p ∷ []) = p
join_with sep (p ∷ q ∷ ps) = p ++ sep ∷ join_with sep (q ∷ ps)

-- Values.Encode: the pairs sorted by key, joined by ampersands.
unfoldable pub encode : Values → Bytes
unfolding sort_keys pairs join_with query_escape utf8
encode vs = join_with b'&' (pairs (sort_keys vs))

encode_sorts : encode (("b", "2 3" ∷ []) ∷ ("a", "x/" ∷ "y" ∷ []) ∷ []) ≡ codes "a=x%2F&a=y&b=2+3"
unfolding encode
encode_sorts = refl
