-- ===== src/Signing/Verification.antt =====
-- What a server checks of a signed request as it was sent (internal/signing/signing.go with
-- internal/transport/transport.go).
use webull.Common.{
  ℕ, String, ◌≡◌, refl, ap, ◌∙◌, Bool, true, false, ◌&&◌, List, [], ◌∷◌, ◌++◌, map, ◌==◌, eq_iff,
  is_empty, if◌then◌else◌, arith,
}
use webull.Transport.Url.{Bytes, Values, encode, sort_keys}
use webull.Transport.Url.Parse.{parse_query, single_values, singles, parse_query-encode}
use webull.Transport.Http.{Headers, HttpRequest, get_header, set_header, set_all, same_key}
use webull.Transport.Http.HeaderLaws.{has_key}
use webull.Transport.Attempt.{SignRequest, Doer, Request, build}
use webull.Transport.Attempt.Precedence.{is_fixed, build-precedence}
use webull.Query.{IsQuery}
use webull.Query.Sorted.{sort_keys-IsQuery, find_values-sort_keys}
use webull.Signing.{
  Signer, Params, signature_headers, append_values, append_query, canonical_plain, canonical,
  sign_text, sign,
}
use webull.Signing.QueryOrder.{canonical-query_order}

-- The headers that the signature covers.
abbrev signed_names : List String
signed_names =
    "x-app-key" ∷ "x-timestamp" ∷ "x-signature-version" ∷ "x-signature-algorithm"
    ∷ "x-signature-nonce" ∷ []

abbrev received : Headers → Headers
received h = map (λ k. (k, get_header k h)) signed_names

-- The request as a server reads it.
abbrev request_read : HttpRequest → SignRequest
request_read h = record {
  host = h.host;
  path = h.path;
  query = parse_query h.raw_query;
  body = h.body;
}

-- A server that knows the secret of the key recomputes the signature from what was sent.
unfoldable pub verify : Signer → HttpRequest → Bool
verify s h =
    get_header "x-app-key" h.headers == s.app_key
    && get_header "x-signature" h.headers
      == sign_text s (canonical s.crypto (request_read h) (received h.headers))

append_query-single_values :
    (k : String) (vs : List String) (q : Values) (ps : Params)
    → append_query (single_values k vs ++ q) ps ≡ append_query q (append_values k vs ps)
unfolding append_query append_values
append_query-single_values k [] q ps = refl
append_query-single_values k (v ∷ vs) q ps = append_query-single_values k vs q _

append_query-singles : (q : Values) (ps : Params) → append_query (singles q) ps ≡ append_query q ps
unfolding append_query
append_query-singles [] ps = refl
append_query-singles ((k, vs) ∷ q) ps =
    append_query-single_values k vs (singles q) ps ∙ append_query-singles q (append_values k vs ps)

canonical-singles :
    (s : Signer) (req : SignRequest) (q : Values) (headers : Headers)
    → canonical s.crypto (record req { query = singles q }) headers
      ≡ canonical s.crypto (record req { query = q }) headers
unfolding canonical canonical_plain
canonical-singles s req q headers = rw (append_query-singles q _) refl

module _ {ℓ} {B : Type ℓ} (s : Signer) (d : Doer) (signs : d.sign ≡ sign s) (req : Request B)
    (body : Bytes) (auth : Headers) (n : ℕ) where
  abbrev sent : HttpRequest
  sent = build d req body auth n

  abbrev signing : SignRequest
  signing = record { host = req.host; path = req.path; query = req.query; body = body }

  sent-header :
      (k : String)
      → is_fixed k ≡ false
      → has_key k (sign s n signing) ≡ true
      → get_header k sent.headers ≡ get_header k (set_all (sign s n signing) [])
  sent-header k e h =
      let f : d.sign n signing ≡ sign s n signing = ap (λ g. g n signing) signs in
      rw (build-precedence d req body auth n k e, f, h) refl

  received-sent : received sent.headers ≡ signature_headers s n
  unfolding sign signature_headers has_key same_key set_all set_header get_header
  received-sent =
      rw
        (
          sent-header "x-app-key" refl refl,
          sent-header "x-timestamp" refl refl,
          sent-header "x-signature-version" refl refl,
          sent-header "x-signature-algorithm" refl refl,
          sent-header "x-signature-nonce" refl refl,
        )
        refl

  raw_query-encode : sent.raw_query ≡ encode req.query
  unfolding build encode
  raw_query-encode = by_query req.query
    where
      by_query : (q : Values) → (if is_empty q then [] else encode q) ≡ encode q
      by_query [] = refl
      by_query (p ∷ q) = refl

  -- What the server reads of the query is signed as the query was.
  canonical-sent :
      IsQuery req.query
      → canonical s.crypto (request_read sent) (signature_headers s n)
        ≡ canonical s.crypto signing (signature_headers s n)
  unfolding build
  canonical-sent m =
      let e : parse_query sent.raw_query ≡ singles (sort_keys req.query) =
        ap parse_query raw_query-encode ∙ parse_query-encode req.query in
      ap (λ q. canonical s.crypto (record signing { query = q }) (signature_headers s n)) e
      ∙ canonical-singles s signing (sort_keys req.query) (signature_headers s n)
      ∙ canonical-query_order s n signing (sort_keys req.query) m (sort_keys-IsQuery req.query m)
          (λ k. find_values-sort_keys k req.query m)

  -- The signature that one attempt sends is the one that the server computes.
  pub verify-build : IsQuery req.query → verify s sent ≡ true
  unfolding verify sign signature_headers has_key same_key set_all set_header get_header
  verify-build m =
      rw
        (
          received-sent,
          canonical-sent m,
          sent-header "x-app-key" refl refl,
          sent-header "x-signature" refl refl,
        )
        (ground (
          arith,
          eq_iff s.app_key s.app_key,
          eq_iff (sign_text s (canonical s.crypto signing (signature_headers s n)))
              (sign_text s (canonical s.crypto signing (signature_headers s n))),
        ))
