-- ===== src/Transport/Doer.antt =====
-- Doer.Do: internal/transport/transport.go, and Get and Post of internal/transport/helpers.go.
-- The types of JSON bodies and of decoded results are parameters, with their encoding/json codecs.
pub mod Safety
pub mod Outcomes
pub mod Sent
pub mod Decoding
use webull.Common.{
  ℕ, zero, suc, max, String, ◌⊎◌, inl, inr, Bool, true, false, ◌&&◌, Option, none, some, [],
  if◌then◌else◌, is_empty,
}
use webull.Errors.{Error, Result, text, wrap, join, ok, err}
use webull.Transport.Url.{Bytes, Values}
use webull.Transport.Http.{Headers, Env, Net}
use webull.Transport.Retry.{retry_status, retry_transport, backoff}
use webull.Transport.Attempt.{
  Response, Doer, Request, encode_body, authorize, is_success, attempt, sleep,
}

-- attempt < attempts-1, where `left` attempts are left after this one.
abbrev pub is_more : ℕ → Bool
is_more zero = false
is_more (suc left) = true

abbrev pub join_last : Error → Option Error → Error
join_last e none = e
join_last e (some last) = join e last

-- What a run of the loop gives: a result and the network after it.
abbrev pub Rounds {κ} : Type κ → Type κ
Rounds O = Net → Result (Option O) × Net

module _ {κ} {O : Type κ} where
  -- A successful response decoded for a caller that wants it.
  unfoldable pub decode_success : Option (Bytes → Result O) → Response → Result (Option O)
  decode_success none resp = ok none
  decode_success (some unmarshal) resp =
      if is_empty resp.body
      then err (text "webull: expected a response body, got none")
      else elim (unmarshal resp.body) [
        | ok o ↦ ok (some o)
        | err e ↦ err (wrap "webull: decoding response" e)
      ]

  -- What a round makes of its attempt: a result, or the error after which to try again. `more` says
  -- whether another attempt is left.
  unfoldable pub judge :
      Doer → String → Option (Bytes → Result O) → Bool → Result Response → Result (Option O) ⊎ Error
  judge d method want more (err e) =
      if retry_transport d.retry method && more then inr e else inl (err e)
  judge d method want more (ok resp) =
      if is_success resp.status_code
      then inl (decode_success want resp)
      else if retry_status d.retry resp.status_code method && more
      then inr (d.decode_error resp)
      else inl (err (d.decode_error resp))

  abbrev pub last_result : Option Error → Result (Option O)
  last_result none = ok none
  last_result (some e) = err e

  -- The rest of a round after its attempt.
  abbrev pub proceed : Result (Option O) ⊎ Error → (Error → Rounds O) → Rounds O
  proceed (inl r) again net = (r, net)
  proceed (inr e) again net = again e net

  abbrev pub after_pause : Option Error → Option Error → Rounds O → Rounds O
  after_pause (some e) last go net = (err (join_last e last), net)
  after_pause none last go net = go net

module _ {ℓ κ} {B : Type ℓ} {O : Type κ} where
  -- One attempt and what follows from it.
  unfoldable pub try_once :
      Doer
      → Env
      → Request B
      → Bytes
      → Headers
      → Option (Bytes → Result O)
      → (more : Bool) → (again : Error → Rounds O) → Rounds O
  try_once d env req body auth want more again net =
      let (r, n) = attempt d env req body auth net in
      proceed (judge d req.method want more r) again n

  -- The attempt numbered `k` of the loop, with the pause before it.
  unfoldable pub round :
      Doer
      → Env
      → Request B
      → Bytes
      → Headers
      → Option (Bytes → Result O)
      → (more : Bool) → (k : ℕ) → Option Error
      → (again : Error → Rounds O) → Rounds O
  round d env req body auth want more zero last again net =
      try_once d env req body auth want more again net
  round d env req body auth want more (suc k) last again net =
      let (stop, n) = sleep env (backoff d.float d.retry (suc k)) net in
      after_pause stop last (try_once d env req body auth want more again) n

  -- The retry loop: `left` attempts are left, `k` were made.
  unfoldable pub rounds :
      Doer
      → Env
      → Request B
      → Bytes
      → Headers
      → Option (Bytes → Result O)
      → (left k : ℕ) → Option Error
      → Rounds O
  rounds d env req body auth want zero k last net = (last_result last, net)
  rounds d env req body auth want (suc left) k last net =
      round d env req body auth want (is_more left) k last
        (λ e n. rounds d env req body auth want left (suc k) (some e) n) net

  -- The loop, once the authorizer has answered.
  unfoldable pub send_authorized :
      Doer → Env → Request B → Option (Bytes → Result O) → Bytes → Result Headers → Rounds O
  send_authorized d env req want body (err e) net = (err e, net)
  send_authorized d env req want body (ok auth) net =
      rounds d env req body auth want (max d.retry.max_attempts 1) 0 none net

  -- The authorizer and the loop, once the body is encoded.
  unfoldable pub send_encoded :
      Doer → Env → Request B → Option (Bytes → Result O) → Result Bytes → Rounds O
  send_encoded d env req want (err e) net = (err e, net)
  send_encoded d env req want (ok body) net =
      let (auth, n) = authorize d net in send_authorized d env req want body auth n

  -- Doer.Do
  unfoldable pub do_request :
      (B → Result Bytes) → Doer → Env → Request B → Option (Bytes → Result O) → Rounds O
  do_request marshal d env req want = send_encoded d env req want (encode_body marshal req)

  -- Doer.Get
  unfoldable pub get :
      (B → Result Bytes)
      → Doer
      → Env
      → String
      → String
      → Values
      → Option (Bytes → Result O)
      → Rounds O
  get marshal d env host path query want =
      do_request marshal d env
        (record {
          method = "GET";
          host = host;
          path = path;
          query = query;
          body = none;
          form = none;
        })
        want

  -- Doer.Post
  unfoldable pub post :
      (B → Result Bytes)
      → Doer
      → Env
      → String
      → String
      → Option B
      → Option (Bytes → Result O)
      → Rounds O
  post marshal d env host path body want =
      do_request marshal d env
        (record { method = "POST"; host = host; path = path; query = []; body = body; form = none })
        want
