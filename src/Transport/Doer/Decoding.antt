-- ===== src/Transport/Doer/Decoding.antt =====
-- What a call returns is what its caller's decoder makes of the body that it received
-- (internal/transport/transport.go).
use webull.Common.{
  String, ℕ, zero, suc, max, ◌≡◌, refl, ◌⊎◌, inl, inr, Bool, Option, none, some, Bool-cases,
  is_empty, ◌&&◌,
}
use webull.Errors.{Error, Result, wrap, ok, err}
use webull.Transport.Url.{Bytes}
use webull.Transport.Http.{Headers, Env, Net}
use webull.Transport.Retry.{retry_status, retry_transport, backoff}
use webull.Transport.Attempt.{
  Response, Doer, Request, encode_body, authorize, is_success, attempt, sleep,
}
use webull.Transport.Doer.{
  is_more, Rounds, decode_success, judge, proceed, after_pause, try_once, round, rounds,
  send_authorized, send_encoded, do_request,
}

-- The decoder that keeps the body as it is.
abbrev pub raw : Bytes → Result Bytes
raw b = ok b

module _ {κ} {O : Type κ} (f : Bytes → Result O) where
  abbrev pub decoded : Result O → Result (Option O)
  decoded (ok o) = ok (some o)
  decoded (err e) = err (wrap "webull: decoding response" e)

  abbrev pub through : Result (Option Bytes) → Result (Option O)
  through (err e) = err e
  through (ok none) = ok none
  through (ok (some b)) = decoded (f b)

  abbrev passed : Result (Option Bytes) × Net → Result (Option O) × Net
  passed (r, n) = (through r, n)

  abbrev judged : Result (Option Bytes) ⊎ Error → Result (Option O) ⊎ Error
  judged (inl r) = inl (through r)
  judged (inr e) = inr e

  decode_success-through :
      (resp : Response) → decode_success (some f) resp ≡ through (decode_success (some raw) resp)
  unfolding decode_success
  decode_success-through resp = elim (Bool-cases (is_empty resp.body)) [
    | inl e ↦ rw e refl
    | inr e ↦ rw e (by_result (f resp.body))
  ]
    where
      by_result :
          (r : Result O)
          → (elim r [ ok o ↦ ok (some o) | err e ↦ err (wrap "webull: decoding response" e) ])
            ≡ decoded r
      by_result (ok o) = refl
      by_result (err e) = refl

  judge-judged :
      (d : Doer) (method : String) (more : Bool) (x : Result Response)
      → judge d method (some f) more x ≡ judged (judge d method (some raw) more x)
  unfolding judge
  judge-judged d method more (err e) = elim (Bool-cases (retry_transport d.retry method && more)) [
    | inl h ↦ rw h refl
    | inr h ↦ rw h refl
  ]
  judge-judged d method more (ok resp) = elim (Bool-cases (is_success resp.status_code)) [
    | inl h ↦ rw (h, decode_success-through resp) refl
    | inr h ↦ elim (Bool-cases (retry_status d.retry resp.status_code method && more)) [
      | inl k ↦ rw (h, k) refl
      | inr k ↦ rw (h, k) refl
    ]
  ]

  abbrev IsPassed : Rounds O → Rounds Bytes → Type κ
  IsPassed g g' = (net : Net) → g net ≡ passed (g' net)

  proceed-IsPassed :
      (v : Result (Option Bytes) ⊎ Error) (again : Error → Rounds O) (again' : Error → Rounds Bytes)
      → ((e : Error) → IsPassed (again e) (again' e))
      → IsPassed (proceed (judged v) again) (proceed v again')
  proceed-IsPassed (inl r) again again' h net = refl
  proceed-IsPassed (inr e) again again' h net = h e net

  after_pause-IsPassed :
      (stop last : Option Error) (go : Rounds O) (go' : Rounds Bytes)
      → IsPassed go go'
      → IsPassed (after_pause stop last go) (after_pause stop last go')
  after_pause-IsPassed none last go go' h net = h net
  after_pause-IsPassed (some e) last go go' h net = refl

module _ {ℓ κ} {B : Type ℓ} {O : Type κ} (f : Bytes → Result O) (d : Doer) (env : Env)
    (req : Request B) where
  try_once-IsPassed :
      (body : Bytes) (auth : Headers) (more : Bool) (again : Error → Rounds O)
      (again' : Error → Rounds Bytes)
      → ((e : Error) → IsPassed f (again e) (again' e))
      → IsPassed f
          (try_once d env req body auth (some f) more again)
          (try_once d env req body auth (some raw) more again')
  unfolding try_once
  try_once-IsPassed body auth more again again' h net =
      let (r, n) = attempt d env req body auth net in
      rw (judge-judged f d req.method more r)
        (proceed-IsPassed f (judge d req.method (some raw) more r) again again' h n)

  round-IsPassed :
      (body : Bytes) (auth : Headers) (more : Bool) (k : ℕ) (last : Option Error)
      (again : Error → Rounds O) (again' : Error → Rounds Bytes)
      → ((e : Error) → IsPassed f (again e) (again' e))
      → IsPassed f
          (round d env req body auth (some f) more k last again)
          (round d env req body auth (some raw) more k last again')
  unfolding round
  round-IsPassed body auth more zero last again again' h net =
      try_once-IsPassed body auth more again again' h net
  round-IsPassed body auth more (suc k) last again again' h net =
      after_pause-IsPassed f (sleep env (backoff d.float d.retry (suc k)) net).0 last
        (try_once d env req body auth (some f) more again)
        (try_once d env req body auth (some raw) more again')
        (try_once-IsPassed body auth more again again' h)
        (sleep env (backoff d.float d.retry (suc k)) net).1

  rounds-IsPassed :
      (body : Bytes) (auth : Headers) (left k : ℕ) (last : Option Error)
      → IsPassed f
          (rounds d env req body auth (some f) left k last)
          (rounds d env req body auth (some raw) left k last)
  unfolding rounds
  rounds-IsPassed body auth zero k none net = refl
  rounds-IsPassed body auth zero k (some e) net = refl
  rounds-IsPassed body auth (suc left) k last net =
      round-IsPassed body auth (is_more left) k last
        (λ e n. rounds d env req body auth (some f) left (suc k) (some e) n)
        (λ e n. rounds d env req body auth (some raw) left (suc k) (some e) n)
        (λ e. rounds-IsPassed body auth left (suc k) (some e)) net

  send_authorized-IsPassed :
      (body : Bytes) (r : Result Headers)
      → IsPassed f
          (send_authorized d env req (some f) body r)
          (send_authorized d env req (some raw) body r)
  unfolding send_authorized
  send_authorized-IsPassed body (err e) net = refl
  send_authorized-IsPassed body (ok auth) net =
      rounds-IsPassed body auth (max d.retry.max_attempts 1) 0 none net

  send_encoded-IsPassed :
      (r : Result Bytes)
      → IsPassed f (send_encoded d env req (some f) r) (send_encoded d env req (some raw) r)
  unfolding send_encoded
  send_encoded-IsPassed (err e) net = refl
  send_encoded-IsPassed (ok body) net =
      send_authorized-IsPassed body (authorize d net).0 (authorize d net).1

  -- The same requests are sent, and the result is decoded from the same body.
  pub do_request-through :
      (marshal : B → Result Bytes) (net : Net)
      → do_request marshal d env req (some f) net ≡ (
        through f (do_request marshal d env req (some raw) net).0,
        (do_request marshal d env req (some raw) net).1,
      )
  unfolding do_request
  do_request-through marshal net = send_encoded-IsPassed (encode_body marshal req) net
