-- ===== src/Transport/Doer/Outcomes.antt =====
-- What Doer.Do returns (internal/transport/transport.go): which response decides, and which error a
-- caller sees.
use webull.Common.{
  ℕ, zero, suc, ◌≤◌, ◌<◌, ◌≡◌, ◌∙◌, inl, inr, Bool, true, false, Option, none, some, arith,
  if◌then◌else◌,
}
use webull.Errors.{Error, Result, join, ok, err}
use webull.Transport.Url.{Bytes}
use webull.Transport.Method.{is_idempotent}
use webull.Transport.Http.{Headers, Env, Net}
use webull.Transport.Retry.{retry_status, backoff}
use webull.Transport.Attempt.{Response, Doer, Request, is_success, attempt, sleep}
use webull.Transport.Doer.{is_more, Rounds, decode_success, judge, try_once, round, rounds}

-- A run of failed attempts, of which each is retried: a server error, then a full pause. `j` attempts
-- fail, of which the first has number `k`.
pub data Fails {ℓ} {B : Type ℓ} (d : Doer) (env : Env) (req : Request B) (body : Bytes)
    (auth : Headers) : ℕ → ℕ → Net → Net → Type ℓ where
  here : {k : ℕ} {net : Net} → Fails d env req body auth 0 k net net
  next :
      {j k : ℕ} {net end : Net} (resp : Response)
      → (attempt d env req body auth net).0 ≡ ok resp
      → 500 ≤ resp.status_code
      → (sleep env (backoff d.float d.retry (suc k)) (attempt d env req body auth net).1).0 ≡ none
      → Fails d env req body auth j
          (suc k)
          (sleep env (backoff d.float d.retry (suc k)) (attempt d env req body auth net).1).1
          end
      → Fails d env req body auth (suc j) k net end

-- The result of the response that ends the loop.
abbrev pub final_result {κ} :
    {O : Type κ} → Doer → Option (Bytes → Result O) → Response → Result (Option O)
final_result d want resp =
    if is_success resp.status_code then decode_success want resp else err (d.decode_error resp)

module _ {ℓ κ} {B : Type ℓ} {O : Type κ} (d : Doer) (env : Env) (req : Request B) (body : Bytes)
    (auth : Headers) (want : Option (Bytes → Result O)) where
  -- A response that is not a server error ends the loop, at whatever attempt.
  judge-eq-final :
      (more : Bool) (resp : Response)
      → resp.status_code < 500
      → judge d req.method want more (ok resp) ≡ inl (final_result d want resp)
  unfolding judge retry_status
  judge-eq-final more resp h = ground arith

  judge_retries :
      (resp : Response)
      → is_idempotent req.method ≡ true
      → 500 ≤ resp.status_code
      → judge d req.method want true (ok resp) ≡ inr (d.decode_error resp)
  unfolding judge retry_status
  judge_retries resp h k = ground arith

  try_once-eq-final :
      (more : Bool) (again : Error → Rounds O) (net : Net) (resp : Response)
      → (attempt d env req body auth net).0 ≡ ok resp
      → resp.status_code < 500
      → try_once d env req body auth want more again net
        ≡ (final_result d want resp, (attempt d env req body auth net).1)
  unfolding try_once
  try_once-eq-final more again net resp e h = rw (e, judge-eq-final more resp h)

  try_once_retries :
      (again : Error → Rounds O) (net : Net) (resp : Response)
      → is_idempotent req.method ≡ true
      → (attempt d env req body auth net).0 ≡ ok resp
      → 500 ≤ resp.status_code
      → try_once d env req body auth want true again net
        ≡ again (d.decode_error resp) (attempt d env req body auth net).1
  unfolding try_once
  try_once_retries again net resp i e h = rw (e, judge_retries resp i h)

  tries_end :
      (left : ℕ) (resp : Response) {j k : ℕ} {net end : Net}
      → Fails d env req body auth j k net end
      → j ≤ left
      → is_idempotent req.method ≡ true
      → (attempt d env req body auth end).0 ≡ ok resp
      → resp.status_code < 500
      → try_once d env req body auth want
          (is_more left)
          (λ e n. rounds d env req body auth want left (suc k) (some e) n)
          net
        ≡ (final_result d want resp, (attempt d env req body auth end).1)
  unfolding rounds round
  tries_end left resp here h i e s = try_once-eq-final _ _ _ resp e s
  tries_end zero resp (next r a f p rest) h i e s = absurd (omega arith)
  tries_end (suc left) resp (next {k = k} {net = net} r a f p rest) h i e s =
      try_once_retries (λ e n. rounds d env req body auth want (suc left) (suc k) (some e) n) net r
        i a f
      ∙ rw p (tries_end left resp rest (omega arith) i e s)

  -- A call of an idempotent method whose first `j` attempts fail with server errors, where a further
  -- attempt is allowed and brings another response, has the result that this response gives, and
  -- sends nothing after it.
  pub rounds-eq-final :
      (left : ℕ) (resp : Response) {j : ℕ} {net end : Net}
      → Fails d env req body auth j 0 net end
      → j ≤ left
      → is_idempotent req.method ≡ true
      → (attempt d env req body auth end).0 ≡ ok resp
      → resp.status_code < 500
      → rounds d env req body auth want (suc left) 0 none net
        ≡ (final_result d want resp, (attempt d env req body auth end).1)
  unfolding rounds round
  rounds-eq-final left resp fails h i e s = tries_end left resp fails h i e s

  judge_last :
      (resp : Response)
      → 500 ≤ resp.status_code
      → judge d req.method want false (ok resp) ≡ inl (err (d.decode_error resp))
  unfolding judge
  judge_last resp s = ground arith

  last_try :
      (resp : Response) {j k : ℕ} {net end : Net}
      → Fails d env req body auth j k net end
      → is_idempotent req.method ≡ true
      → (attempt d env req body auth end).0 ≡ ok resp
      → 500 ≤ resp.status_code
      → try_once d env req body auth want
          (is_more j)
          (λ e n. rounds d env req body auth want j (suc k) (some e) n)
          net
        ≡ (err (d.decode_error resp), (attempt d env req body auth end).1)
  unfolding rounds round try_once
  last_try resp here i e s = rw (e, judge_last resp s)
  last_try resp (next {j = j} {k = k} {net = net} r a f p rest) i e s =
      try_once_retries (λ e n. rounds d env req body auth want (suc j) (suc k) (some e) n) net r i a
        f
      ∙ rw p (last_try resp rest i e s)

  -- A call of an idempotent method all of whose attempts bring server errors returns the error of the
  -- last response.
  pub rounds-eq-last_error :
      (resp : Response) {j : ℕ} {net end : Net}
      → Fails d env req body auth j 0 net end
      → is_idempotent req.method ≡ true
      → (attempt d env req body auth end).0 ≡ ok resp
      → 500 ≤ resp.status_code
      → rounds d env req body auth want (suc j) 0 none net
        ≡ (err (d.decode_error resp), (attempt d env req body auth end).1)
  unfolding rounds round
  rounds-eq-last_error resp fails i e s = last_try resp fails i e s

  -- If the context ends during the pause before a further attempt, the call sends nothing more, and
  -- its error still carries the error that it was retrying after.
  pub rounds-pause_error :
      (left k : ℕ) (last stop : Error) (net : Net)
      → (sleep env (backoff d.float d.retry (suc k)) net).0 ≡ some stop
      → rounds d env req body auth want (suc left) (suc k) (some last) net
        ≡ (err (join stop last), (sleep env (backoff d.float d.retry (suc k)) net).1)
  unfolding rounds round
  rounds-pause_error left k last stop net p = rw p
