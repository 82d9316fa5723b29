-- ===== src/Transport/Doer/Safety.antt =====
-- How many requests Doer.Do sends (internal/transport/transport.go, retry.go). The default of
-- replaying only idempotent requests is what keeps an order from being placed twice.

use webull.Common.{
  ◌∷◌, refl, ℕ, zero, suc, max, ◌+◌, ◌≤◌, String, ◌≡◌, ◌⊎◌, inl, inr, Bool, false, Option, none,
  some, arith, if◌then◌else◌, length,
}
use webull.Errors.{Error, Result, redirect_not_allowed, sentinel, ok, err}
use webull.Transport.Url.{Bytes}
use webull.Transport.Method.{is_idempotent}
use webull.Transport.Http.{
  HttpClient, HttpRequest, Headers, Env, Net, new_http_client, redirects, client_do,
}
use webull.Transport.Retry.{retry_status, retry_transport, backoff}
use webull.Transport.Attempt.{
  Response, Doer, Request, encode_body, authorize, build, is_success, attempt, sleep,
}
use webull.Transport.Doer.{
  is_more, Rounds, decode_success, judge, proceed, try_once, round, rounds, send_authorized,
  send_encoded, do_request,
}

abbrev pub sent_count : Net → ℕ
sent_count net = length net.sent

-- The Doer has a client of NewHTTPClient.
abbrev pub IsGuarded : Doer → Type 0
IsGuarded d = (base : Option HttpClient) × (d.http_client ≡ new_http_client base)

-- Such a client follows no redirect, so that an exchange is one request.
refusing : (d : Doer) → IsGuarded d → (e : Error) × (d.http_client.check_redirect ≡ some e)
unfolding new_http_client
refusing d (none, g) = (sentinel redirect_not_allowed, rw g refl)
refusing d (some base, g) = (sentinel redirect_not_allowed, rw g refl)

pub client_do_once :
    (d : Doer) (env : Env) (h : HttpRequest) (net : Net)
    → IsGuarded d
    → (client_do d.http_client env h net).1 ≡ record net { sent = h ∷ net.sent }
unfolding client_do redirects
client_do_once d env h net guarded = let (e, f) = refusing d guarded in rw f refl

module _ {ℓ} {B : Type ℓ} (d : Doer) (guarded : IsGuarded d) (env : Env) (req : Request B)
    (body : Bytes) (auth : Headers) where
  attempt-sent_count :
      (net : Net) → sent_count (attempt d env req body auth net).1 ≤ sent_count net + 1
  unfolding attempt
  attempt-sent_count net = by_error (env.build_error req.method req.host req.path req.query) refl
    where
      by_error :
          (e : Option Error)
          → env.build_error req.method req.host req.path req.query ≡ e
          → sent_count (attempt d env req body auth net).1 ≤ sent_count net + 1
      by_error none q =
          rw
            (attempt, q, client_do_once d env (build d req body auth (length net.sent)) net guarded)
            (omega arith)
      by_error (some e) q = rw (attempt, q) (omega arith)

module _ {κ} {O : Type κ} where
  judge_final :
      (d : Doer) (method : String) (want : Option (Bytes → Result O)) (more : Bool)
      (x : Result Response)
      → is_idempotent method ≡ false
      → (r : Result (Option O)) × (judge d method want more x ≡ inl r)
  unfolding judge retry_transport retry_status
  judge_final d method want more (err e) h = (err e, ground arith)
  judge_final d method want more (ok resp) h = (
    if is_success resp.status_code then decode_success want resp else err (d.decode_error resp),
    ground arith,
  )

  proceed-sent_count :
      (v : Result (Option O) ⊎ Error) (again : Error → Rounds O) (net : Net) (m : ℕ)
      → ((e : Error) (n : Net) → sent_count (again e n).1 ≤ sent_count n + m)
      → sent_count (proceed v again net).1 ≤ sent_count net + m
  proceed-sent_count (inl r) again net m h = omega arith
  proceed-sent_count (inr e) again net m h = h e net

module _ {ℓ κ} {B : Type ℓ} {O : Type κ} (d : Doer) (guarded : IsGuarded d) (env : Env)
    (req : Request B) (body : Bytes) (auth : Headers) (want : Option (Bytes → Result O)) where
  try_once-sent_count :
      (more : Bool) (again : Error → Rounds O) (net : Net) (m : ℕ)
      → ((e : Error) (n : Net) → sent_count (again e n).1 ≤ sent_count n + m)
      → sent_count (try_once d env req body auth want more again net).1 ≤ sent_count net + 1 + m
  unfolding try_once
  try_once-sent_count more again net m h = omega (
    arith,
    attempt-sent_count d guarded env req body auth net,
    proceed-sent_count (judge d req.method want more (attempt d env req body auth net).0) again
        (attempt d env req body auth net).1 m h,
  )

  round-sent_count :
      (more : Bool) (k : ℕ) (last : Option Error) (again : Error → Rounds O) (net : Net) (m : ℕ)
      → ((e : Error) (n : Net) → sent_count (again e n).1 ≤ sent_count n + m)
      → sent_count (round d env req body auth want more k last again net).1 ≤ sent_count net + 1 + m
  unfolding round sleep
  round-sent_count more zero last again net m h = try_once-sent_count more again net m h
  round-sent_count more (suc k) last again net m h = ground (
    arith,
    try_once-sent_count more again (sleep env (backoff d.float d.retry (suc k)) net).1 m h,
  )

  rounds-sent_count :
      (left k : ℕ) (last : Option Error) (net : Net)
      → sent_count (rounds d env req body auth want left k last net).1 ≤ sent_count net + left
  unfolding rounds
  rounds-sent_count zero k last net = omega arith
  rounds-sent_count (suc left) k last net = omega (
    arith,
    round-sent_count (is_more left) k last
        (λ e n. rounds d env req body auth want left (suc k) (some e) n) net left
        (λ e n. rounds-sent_count left (suc k) (some e) n),
  )

  -- The first round of a method that is not idempotent is the last.
  try_once-sent_once :
      (more : Bool) (again : Error → Rounds O) (net : Net)
      → is_idempotent req.method ≡ false
      → sent_count (try_once d env req body auth want more again net).1 ≤ sent_count net + 1
  unfolding try_once
  try_once-sent_once more again net h =
      let (r, final) = judge_final d req.method want more (attempt d env req body auth net).0 h in
      rw final (attempt-sent_count d guarded env req body auth net)

  rounds-sent_once :
      (left : ℕ) (last : Option Error) (net : Net)
      → is_idempotent req.method ≡ false
      → sent_count (rounds d env req body auth want left 0 last net).1 ≤ sent_count net + 1
  unfolding rounds round
  rounds-sent_once zero last net h = omega arith
  rounds-sent_once (suc left) last net h = try_once-sent_once _ _ net h

module _ {ℓ κ} {B : Type ℓ} {O : Type κ} (d : Doer) (guarded : IsGuarded d) (env : Env)
    (req : Request B) (body : Bytes) (want : Option (Bytes → Result O)) where
  send_authorized-sent_bound :
      (r : Result Headers) (net : Net)
      → sent_count (send_authorized d env req want body r net).1
        ≤ sent_count net + max d.retry.max_attempts 1
  unfolding send_authorized
  send_authorized-sent_bound (err e) net = omega arith
  send_authorized-sent_bound (ok h) net =
      rounds-sent_count d guarded env req body h want (max d.retry.max_attempts 1) 0 none net

  send_authorized-sent_once :
      (r : Result Headers) (net : Net)
      → is_idempotent req.method ≡ false
      → sent_count (send_authorized d env req want body r net).1 ≤ sent_count net + 1
  unfolding send_authorized
  send_authorized-sent_once (err e) net h = omega arith
  send_authorized-sent_once (ok a) net h =
      rounds-sent_once d guarded env req body a want (max d.retry.max_attempts 1) none net h

module _ {ℓ κ} {B : Type ℓ} {O : Type κ} (d : Doer) (guarded : IsGuarded d) (env : Env)
    (req : Request B) (want : Option (Bytes → Result O)) (net : Net)
    (grows : sent_count net ≤ sent_count (authorize d net).1) where
  send_encoded-sent_bound :
      (r : Result Bytes)
      → sent_count (send_encoded d env req want r net).1
        ≤ sent_count (authorize d net).1 + max d.retry.max_attempts 1
  unfolding send_encoded
  send_encoded-sent_bound (err e) = omega arith
  send_encoded-sent_bound (ok body) =
      send_authorized-sent_bound d guarded env req body want (authorize d net).0 (authorize d net).1

  send_encoded-sent_once :
      (r : Result Bytes)
      → is_idempotent req.method ≡ false
      → sent_count (send_encoded d env req want r net).1 ≤ sent_count (authorize d net).1 + 1
  unfolding send_encoded
  send_encoded-sent_once (err e) h = omega arith
  send_encoded-sent_once (ok body) h =
      send_authorized-sent_once d guarded env req body want (authorize d net).0 (authorize d net).1
        h

module _ {ℓ κ} {B : Type ℓ} {O : Type κ} where
  -- A call on a client of NewHTTPClient sends at most max(MaxAttempts, 1) requests, whatever the network answers, beside those
  -- that the authorizer sends (which takes none back).
  pub do_request-sent_bound :
      (marshal : B → Result Bytes) (d : Doer) (env : Env) (req : Request B)
      (want : Option (Bytes → Result O)) (net : Net)
      → IsGuarded d
      → sent_count net ≤ sent_count (authorize d net).1
      → sent_count (do_request marshal d env req want net).1
        ≤ sent_count (authorize d net).1 + max d.retry.max_attempts 1
  unfolding do_request
  do_request-sent_bound marshal d env req want net guarded grows =
      send_encoded-sent_bound d guarded env req want net grows (encode_body marshal req)

  -- A call whose method is not idempotent, on a client of NewHTTPClient, sends at most one request, those
  -- for redirects included, whatever the retry policy and whatever the network answers, beside those that
  -- the authorizer sends (which takes none back).
  pub do_request-sent_once :
      (marshal : B → Result Bytes) (d : Doer) (env : Env) (req : Request B)
      (want : Option (Bytes → Result O)) (net : Net)
      → IsGuarded d
      → sent_count net ≤ sent_count (authorize d net).1
      → is_idempotent req.method ≡ false
      → sent_count (do_request marshal d env req want net).1 ≤ sent_count (authorize d net).1 + 1
  unfolding do_request
  do_request-sent_once marshal d env req want net guarded grows h =
      send_encoded-sent_once d guarded env req want net grows (encode_body marshal req) h
