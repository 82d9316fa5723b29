-- ===== src/Transport/Attempt.antt =====
-- One signed request: Doer.attempt and the preparation in Doer.Do (internal/transport/transport.go).
-- The type of JSON bodies is a parameter, with its encoding/json encoder.
pub mod Bodies
pub mod Precedence
use webull.Common.{
  ℕ, ◌+◌, String, Bool, true, false, ◌&&◌, Option, none, some, [], ◌∷◌, ◌==◌, ltb, leb,
  if◌then◌else◌, length, take, is_empty,
}
use webull.Common.Int.{ℤ}
use webull.Errors.{Error, Result, response_too_large, sentinel, text, wrap, ok, err}
use webull.Transport.Url.{Bytes, Values, encode}
use webull.Transport.Http.{
  Headers, set_header, set_all, HttpRequest, HttpResponse, Exchange, Env, Net, HttpClient,
  client_do, failed, cut, answered,
}
use webull.Transport.Retry.{RetryPolicy, Float}

abbrev pub max_error_body : ℕ
max_error_body = 8192

abbrev pub max_response_body : ℕ
max_response_body = 33554432

-- The response handed to the error decoder.
pub record Response : Type 0 where
  pub status_code : ℕ
  pub header : Headers
  pub body : Bytes
  pub truncated : Bool

-- The part of a request that the signature covers (signing.Request).
pub record SignRequest : Type 0 where
  pub host : String
  pub path : String
  pub query : Values
  pub body : Bytes

-- `sign n` signs at the n-th attempt: the clock and the nonce differ from attempt to attempt.
-- `authorizer` may itself use the network, as the Connect token source does.
pub record Doer : Type 0 where
  pub http_client : HttpClient
  pub sign : ℕ → SignRequest → Headers
  pub user_agent : String
  pub decode_error : Response → Error
  pub retry : RetryPolicy
  pub float : Float
  pub authorizer : Option (Net → Result Headers × Net)

pub record Request {ℓ} (B : Type ℓ) : Type ℓ where
  pub method : String
  pub host : String
  pub path : String
  pub query : Values
  pub body : Option B
  pub form : Option Values

module _ {ℓ} {B : Type ℓ} (marshal : B → Result Bytes) where
  encode_parts : Option Values → Option B → Result Bytes
  encode_parts (some form) (some b) = err (text "webull: request cannot carry both Body and Form")
  encode_parts (some form) none = ok (encode form)
  encode_parts none (some b) = elim (marshal b) [
    | ok s ↦ ok s
    | err e ↦ err (wrap "webull: encoding request body" e)
  ]
  encode_parts none none = ok []

  -- The body of the request: a form, a JSON value, or nothing.
  unfoldable pub encode_body : Request B → Result Bytes
  unfolding encode_parts
  encode_body req = encode_parts req.form req.body

unfoldable pub authorize_by : Option (Net → Result Headers × Net) → Net → Result Headers × Net
authorize_by none net = (ok [], net)
authorize_by (some f) net =
    let (r, net') = f net in
    (elim r [ ok h ↦ ok h | err e ↦ err (wrap "webull: authorizing request" e) ], net')

-- The Authorizer runs once, before the retry loop.
unfoldable pub authorize : Doer → Net → Result Headers × Net
unfolding authorize_by
authorize d net = authorize_by d.authorizer net

content_type : Bool → Bytes → Headers → Headers
content_type is_form [] h = h
content_type true (c ∷ cs) h = set_header "Content-Type" "application/x-www-form-urlencoded" h
content_type false (c ∷ cs) h = set_header "Content-Type" "application/json" h

abbrev is_some {ℓ} : {A : Type ℓ} → Option A → Bool
is_some none = false
is_some (some a) = true

module _ {ℓ} {B : Type ℓ} where
  -- The signed request of one attempt: the authorizer's headers, then those of the signature, then
  -- the fixed ones.
  unfoldable pub build : Doer → Request B → Bytes → Headers → ℕ → HttpRequest
  unfolding content_type
  build d req body auth n =
      let signing : SignRequest = record {
        host = req.host;
        path = req.path;
        query = req.query;
        body = body;
      } in
      let signed = set_all (d.sign n signing) (set_all auth []) in
      let typed =
        set_header "Accept" "application/json" (content_type (is_some req.form) body signed) in
      record {
        method = req.method;
        host = req.host;
        path = req.path;
        raw_query = if is_empty req.query then [] else encode req.query;
        headers = if d.user_agent == "" then typed else set_header "User-Agent" d.user_agent typed;
        body = body;
      }

abbrev pub is_success : ℕ → Bool
is_success status = leb 200 status && ltb status 300

-- Reads one byte past the limit, so that a body cut short is detected.
unfoldable pub read_body : HttpResponse → ℕ → Result Response
read_body r limit =
    let read = take (limit + 1) r.body in
    let truncated = ltb limit (length read) in
    if is_success r.status_code && truncated
    then err (wrap "limit 33554432 bytes" (sentinel response_too_large))
    else ok (record {
      status_code = r.status_code;
      header = r.header;
      body = if truncated then take limit read else read;
      truncated = truncated;
    })

unfoldable pub receive : Exchange → Result Response
unfolding read_body
receive (failed e) = err (wrap "webull: request failed" e)
receive (cut r e) = err (wrap "webull: reading response" e)
receive (answered r) =
    read_body r (if is_success r.status_code then max_response_body else max_error_body)

module _ {ℓ} {B : Type ℓ} where
  -- One signed request.
  unfoldable pub attempt : Doer → Env → Request B → Bytes → Headers → Net → Result Response × Net
  attempt d env req body auth net = elim (env.build_error req.method req.host req.path req.query) [
    | some e ↦ (err (wrap "webull: building request" e), net)
    | none ↦
        let (x, net') = client_do d.http_client env (build d req body auth (length net.sent)) net in
        (receive x, net')
  ]

-- Doer.sleep: a pause, which ends early with an error if the context does.
unfoldable pub sleep : Env → ℤ → Net → Option Error × Net
sleep env dur net = (env.pause (length net.slept) dur, record net { slept = dur ∷ net.slept })
