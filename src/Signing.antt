-- ===== src/Signing.antt =====
-- Request signatures: internal/signing/signing.go. Texts are bytes. SHA-256, HMAC, base64, the clock
-- and the random source are the `Crypto` that a signer has; the n-th signature takes its timestamp and
-- its nonce from them.
pub mod Escape
pub mod Parameters
pub mod QueryOrder
pub mod Verification
use webull.Common.{
  ℕ, ◌+◌, ◌-◌, ◌/◌, ◌%◌, String, List, [], ◌∷◌, ◌++◌, map, ◌==◌, ltb, beq, if◌then◌else◌,
}
use webull.Common.TextOrder.{le_text}
use webull.Transport.Url.{Bytes, Values, utf8, hex_digit, query_escape, join_with}
use webull.Transport.Http.{Headers}
use webull.Transport.Attempt.{SignRequest}

pub record Crypto : Type 0 where
  pub sha256 : Bytes → Bytes
  pub hmac_sha256 : (key message : Bytes) → Bytes
  pub base64 : Bytes → String
  pub timestamp : ℕ → String
  pub nonce : ℕ → String

pub record Signer : Type 0 where
  pub app_key : String
  pub app_secret : String
  pub crypto : Crypto

-- A map from names to the bytes of their values, in the order in which the names were first set.
abbrev pub Params : Type 0
Params = List (String × Bytes)

-- signatureHeaders
unfoldable pub signature_headers : Signer → ℕ → Headers
signature_headers s n =
    ("x-app-key", s.app_key)
    ∷ ("x-timestamp", s.crypto.timestamp n)
    ∷ ("x-signature-version", "1.0")
    ∷ ("x-signature-algorithm", "HMAC-SHA256")
    ∷ ("x-signature-nonce", s.crypto.nonce n)
    ∷ []

-- The header names are in lower case as they stand.
abbrev header_params : Headers → Params
header_params h = map (λ p. (p.0, utf8 p.1)) h

-- A value that joins a name that is there already is appended behind an ampersand.
unfoldable pub append_param : String → Bytes → Params → Params
append_param k v [] = (k, v) ∷ []
append_param k v ((j, w) ∷ ps) =
    if j == k then (j, w ++ b'&' ∷ v) ∷ ps else (j, w) ∷ append_param k v ps

append_values : String → List String → Params → Params
append_values k [] ps = ps
append_values k (v ∷ vs) ps = append_values k vs (append_param k (utf8 v) ps)

unfoldable pub append_query : Values → Params → Params
unfolding append_values
append_query [] ps = ps
append_query ((k, vs) ∷ q) ps = append_query q (append_values k vs ps)

insert_param : String × Bytes → Params → Params
insert_param p [] = p ∷ []
insert_param p (q ∷ qs) = if le_text p.0 q.0 then p ∷ q ∷ qs else q ∷ insert_param p qs

-- sort.Strings on the names, each with its value.
unfoldable pub sort_params : Params → Params
unfolding insert_param
sort_params [] = []
sort_params (p ∷ ps) = insert_param p (sort_params ps)

-- k + "=" + params[k]
unfoldable pub pair_texts : Params → List Bytes
pair_texts ps = map (λ p. utf8 p.0 ++ b'=' ∷ p.1) ps

lower_digit : ℕ → ℕ
lower_digit n = if ltb n 10 then b'0' + n else b'a' + n - 10

-- hex.EncodeToString, and strings.ToUpper of it.
unfoldable pub hex_lower : Bytes → Bytes
unfolding lower_digit
hex_lower [] = []
hex_lower (c ∷ cs) = lower_digit (c / 16) ∷ lower_digit (c % 16) ∷ hex_lower cs

unfoldable pub hex_upper : Bytes → Bytes
hex_upper [] = []
hex_upper (c ∷ cs) = hex_digit (c / 16) ∷ hex_digit (c % 16) ∷ hex_upper cs

-- strings.ReplaceAll(s, "+", "%20")
unfoldable pub replace_plus : Bytes → Bytes
replace_plus [] = []
replace_plus (c ∷ cs) =
    if beq c b'+' then b'%' ∷ b'2' ∷ b'0' ∷ replace_plus cs else c ∷ replace_plus cs

unfoldable pub escape : Bytes → Bytes
escape s = replace_plus (query_escape s)

abbrev behind_digest : Bytes → Bytes → Bytes
behind_digest [] digest = []
behind_digest (c ∷ cs) digest = b'&' ∷ digest

abbrev path_prefix : String → Bytes
path_prefix path = if path == "" then [] else utf8 path ++ b'&' ∷ []

-- canonical before it is escaped.
unfoldable pub canonical_plain : Crypto → SignRequest → Headers → Bytes
canonical_plain crypto req headers =
    let params = append_query req.query (("host", utf8 req.host) ∷ header_params headers) in
    path_prefix req.path
    ++ (join_with b'&' (pair_texts (sort_params params))
        ++ behind_digest req.body (hex_upper (crypto.sha256 req.body)))

-- canonical
unfoldable pub canonical : Crypto → SignRequest → Headers → Bytes
canonical crypto req headers = escape (canonical_plain crypto req headers)

-- sign: the key is the secret with an ampersand behind it.
unfoldable pub sign_text : Signer → Bytes → String
sign_text s message =
    s.crypto.base64 (s.crypto.hmac_sha256 (utf8 s.app_secret ++ b'&' ∷ []) message)

-- Sign
unfoldable pub sign : Signer → ℕ → SignRequest → Headers
sign s n req =
    let headers = signature_headers s n in
    headers ++ (("x-signature", sign_text s (canonical s.crypto req headers)) ∷ [])

-- What SignStream signs: pairs joined by "=", and the digest in lower case.
unfoldable pub canonical_stream : Crypto → Bytes → Headers → Bytes
canonical_stream crypto body headers = escape (
    join_with b'=' (pair_texts (sort_params (header_params headers)))
    ++ behind_digest body (hex_lower (crypto.sha256 body)))

-- SignStream
unfoldable pub sign_stream : Signer → ℕ → Bytes → Headers
sign_stream s n body =
    let headers = signature_headers s n in
    headers ++ (("x-signature", sign_text s (canonical_stream s.crypto body headers)) ∷ [])
