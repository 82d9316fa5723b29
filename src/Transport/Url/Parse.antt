-- ===== src/Transport/Url/Parse.antt =====
-- Query strings read back: what a server makes of a query that Transport.Url encodes.
use webull.Common.{
  ℕ, ◌/◌, ◌%◌, ◌<◌, String, ◌≡◌, refl, ap, ◌∙◌, inl, inr, true, false, List, [], ◌∷◌, ◌++◌, arith,
  beq, if◌then◌else◌, Bool-cases, All, All-append, is_empty,
}
use webull.Transport.Url.{
  Bytes, Values, is_unreserved, hex_digit, escape_byte, query_escape, utf8, pair, pairs_of, pairs,
  sort_keys, join_with, encode,
}
use webull.Transport.Url.Percent.{unescape, hex_digit-value}
use webull.Transport.Url.Utf8.{from_utf8, from_utf8-utf8, utf8-IsBytes}

-- The part before the first separator, and what follows it.
abbrev before : ℕ → Bytes → Bytes
before sep [] = []
before sep (c ∷ cs) = let rest = before sep cs in if beq c sep then [] else c ∷ rest

abbrev behind : ℕ → Bytes → Bytes
behind sep [] = []
behind sep (c ∷ cs) = let rest = behind sep cs in if beq c sep then cs else rest

abbrev add_first : ℕ → List Bytes → List Bytes
add_first c [] = (c ∷ []) ∷ []
add_first c (p ∷ ps) = (c ∷ p) ∷ ps

-- strings.Split
abbrev split_at : ℕ → Bytes → List Bytes
split_at sep [] = [] ∷ []
split_at sep (c ∷ cs) =
    let rest = split_at sep cs in if beq c sep then [] ∷ rest else add_first c rest

-- "+" is a space.
abbrev unescape_text : Bytes → String
unescape_text s = from_utf8 (unescape b' ' s)

abbrev parameter : Bytes → String × List String
parameter p = (unescape_text (before b'=' p), unescape_text (behind b'=' p) ∷ [])

abbrev parameters : List Bytes → Values
parameters [] = []
parameters (p ∷ ps) = let rest = parameters ps in if is_empty p then rest else parameter p ∷ rest

-- url.ParseQuery, as a list of single parameters in the order in which they stand.
unfoldable pub parse_query : Bytes → Values
parse_query raw = parameters (split_at b'&' raw)

-- No byte of an escaped text separates.
abbrev IsInner : Bytes → Type 0
IsInner s = All (λ c. (beq c b'&' ≡ false) × (beq c b'=' ≡ false)) s

hex_digit-inner :
    (n : ℕ) → n < 16 → (beq (hex_digit n) b'&' ≡ false) × (beq (hex_digit n) b'=' ≡ false)
unfolding hex_digit
hex_digit-inner n h = ground arith

unreserved-inner :
    (c : ℕ)
    → is_unreserved c ≡ true
    → (beq c b'&' ≡ false) × (beq c b'=' ≡ false) × (beq c b'%' ≡ false) × (beq c b'+' ≡ false)
unfolding is_unreserved
unreserved-inner c h = ground arith

escape_byte-IsInner : (c : ℕ) → c < 256 → IsInner (escape_byte c)
unfolding escape_byte
escape_byte-IsInner c h = elim (Bool-cases (is_unreserved c)) [
  | inl e ↦ let (p, q, r, s) = unreserved-inner c e in rw e ((p, q), tt)
  | inr e ↦ elim (Bool-cases (beq c b' ')) [
    | inl k ↦ rw (e, k) ((refl, refl), tt)
    | inr k ↦
        rw (e, k)
          (
            (refl, refl),
            (hex_digit-inner (c / 16) (omega arith), (hex_digit-inner (c % 16) (omega arith), tt)),
          )
  ]
]

query_escape-IsInner : (s : Bytes) → All (λ c. c < 256) s → IsInner (query_escape s)
unfolding query_escape
query_escape-IsInner [] h = tt
query_escape-IsInner (c ∷ cs) h =
    All-append _ (escape_byte c) (query_escape cs) (escape_byte-IsInner c h.0)
      (query_escape-IsInner cs h.1)

escape_byte-read :
    (c : ℕ) (rest : Bytes)
    → c < 256
    → unescape b' ' (escape_byte c ++ rest) ≡ c ∷ unescape b' ' rest
unfolding escape_byte
escape_byte-read c rest h = elim (Bool-cases (is_unreserved c)) [
  | inl e ↦ let (p, q, r, s) = unreserved-inner c e in rw (e, r, s) refl
  | inr e ↦ elim (Bool-cases (beq c b' ')) [
    | inl k ↦ rw (e, k) (ap (λ x. x ∷ unescape b' ' rest) (ground arith))
    | inr k ↦
        rw (e, k, hex_digit-value (c / 16) (omega arith), hex_digit-value (c % 16) (omega arith))
          (ap (λ x. x ∷ unescape b' ' rest) (omega arith))
  ]
]

read-query_escape : (s : Bytes) → All (λ c. c < 256) s → unescape b' ' (query_escape s) ≡ s
unfolding query_escape
read-query_escape [] h = refl
read-query_escape (c ∷ cs) h =
    escape_byte-read c (query_escape cs) h.0 ∙ ap (λ t. c ∷ t) (read-query_escape cs h.1)

unescape_text-query_escape : (s : String) → unescape_text (query_escape (utf8 s)) ≡ s
unescape_text-query_escape s =
    ap from_utf8 (read-query_escape (utf8 s) (utf8-IsBytes s)) ∙ from_utf8-utf8 s

before-inner : (s rest : Bytes) → IsInner s → before b'=' (s ++ b'=' ∷ rest) ≡ s
before-inner [] rest h = refl
before-inner (c ∷ cs) rest ((p, q), h) = rw q (ap (λ t. c ∷ t) (before-inner cs rest h))

behind-inner : (s rest : Bytes) → IsInner s → behind b'=' (s ++ b'=' ∷ rest) ≡ rest
behind-inner [] rest h = refl
behind-inner (c ∷ cs) rest ((p, q), h) = rw q (behind-inner cs rest h)

parameter-pair : (k v : String) → parameter (pair k v) ≡ (k, v ∷ [])
unfolding pair
parameter-pair k v =
    let inner = query_escape-IsInner (utf8 k) (utf8-IsBytes k) in
    rw
      (
        before-inner (query_escape (utf8 k)) (query_escape (utf8 v)) inner,
        behind-inner (query_escape (utf8 k)) (query_escape (utf8 v)) inner,
        unescape_text-query_escape k,
        unescape_text-query_escape v,
      )
      refl

abbrev HasNoAmpersand : Bytes → Type 0
HasNoAmpersand s = All (λ c. beq c b'&' ≡ false) s

split_at-append :
    (s rest : Bytes) → HasNoAmpersand s → split_at b'&' (s ++ b'&' ∷ rest) ≡ s ∷ split_at b'&' rest
split_at-append [] rest h = refl
split_at-append (c ∷ cs) rest (p, h) = rw (p, split_at-append cs rest h) refl

split_at-whole : (s : Bytes) → HasNoAmpersand s → split_at b'&' s ≡ s ∷ []
split_at-whole [] h = refl
split_at-whole (c ∷ cs) (p, h) = rw (p, split_at-whole cs h) refl

split_at-join_with :
    (p : Bytes) (ps : List Bytes)
    → All HasNoAmpersand (p ∷ ps)
    → split_at b'&' (join_with b'&' (p ∷ ps)) ≡ p ∷ ps
unfolding join_with
split_at-join_with p [] h = split_at-whole p h.0
split_at-join_with p (q ∷ ps) h =
    split_at-append p (join_with b'&' (q ∷ ps)) h.0 ∙ ap (λ t. p ∷ t) (split_at-join_with q ps h.1)

-- Each value of each key, on its own.
abbrev pub single_values : String → List String → Values
single_values k [] = []
single_values k (v ∷ vs) = (k, v ∷ []) ∷ single_values k vs

abbrev pub singles : Values → Values
singles [] = []
singles ((k, vs) ∷ q) = single_values k vs ++ singles q

IsInner-HasNoAmpersand : (s : Bytes) → IsInner s → HasNoAmpersand s
IsInner-HasNoAmpersand [] h = tt
IsInner-HasNoAmpersand (c ∷ cs) ((p, q), h) = (p, IsInner-HasNoAmpersand cs h)

pair-HasNoAmpersand : (k v : String) → HasNoAmpersand (pair k v)
unfolding pair
pair-HasNoAmpersand k v =
    let inside = λ (s : String).
      IsInner-HasNoAmpersand (query_escape (utf8 s))
        (query_escape-IsInner (utf8 s) (utf8-IsBytes s)) in
    All-append _ (query_escape (utf8 k)) (b'=' ∷ query_escape (utf8 v)) (inside k) (refl, inside v)

pairs_of-HasNoAmpersand : (k : String) (vs : List String) → All HasNoAmpersand (pairs_of k vs)
unfolding pairs_of
pairs_of-HasNoAmpersand k [] = tt
pairs_of-HasNoAmpersand k (v ∷ vs) = (pair-HasNoAmpersand k v, pairs_of-HasNoAmpersand k vs)

pairs-HasNoAmpersand : (q : Values) → All HasNoAmpersand (pairs q)
unfolding pairs
pairs-HasNoAmpersand [] = tt
pairs-HasNoAmpersand ((k, vs) ∷ q) =
    All-append _ (pairs_of k vs) (pairs q) (pairs_of-HasNoAmpersand k vs) (pairs-HasNoAmpersand q)

not_empty : (s t : Bytes) (c : ℕ) → is_empty (s ++ c ∷ t) ≡ false
not_empty [] t c = refl
not_empty (d ∷ s) t c = refl

pair-not_empty : (k v : String) → is_empty (pair k v) ≡ false
unfolding pair
pair-not_empty k v = not_empty (query_escape (utf8 k)) (query_escape (utf8 v)) b'='

parameters-pairs_of :
    (k : String) (vs : List String) (ps : List Bytes)
    → parameters (pairs_of k vs ++ ps) ≡ single_values k vs ++ parameters ps
unfolding pairs_of
parameters-pairs_of k [] ps = refl
parameters-pairs_of k (v ∷ vs) ps =
    rw (pair-not_empty k v, parameter-pair k v, parameters-pairs_of k vs ps) refl

parameters-pairs : (q : Values) → parameters (pairs q) ≡ singles q
unfolding pairs
parameters-pairs [] = refl
parameters-pairs ((k, vs) ∷ q) =
    parameters-pairs_of k vs (pairs q) ∙ ap (λ t. single_values k vs ++ t) (parameters-pairs q)

parameters-split_at :
    (ps : List Bytes)
    → All HasNoAmpersand ps
    → parameters (split_at b'&' (join_with b'&' ps)) ≡ parameters ps
unfolding join_with
parameters-split_at [] h = refl
parameters-split_at (p ∷ ps) h = ap parameters (split_at-join_with p ps h)

-- What Encode writes is read back as the parameters, sorted by key.
pub parse_query-encode : (q : Values) → parse_query (encode q) ≡ singles (sort_keys q)
unfolding parse_query encode
parse_query-encode q =
    parameters-split_at (pairs (sort_keys q)) (pairs-HasNoAmpersand (sort_keys q))
    ∙ parameters-pairs (sort_keys q)
