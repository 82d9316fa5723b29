-- ===== src/Transport/Doer/Sent.antt =====
-- What holds of every request that a call builds holds of every request that it sends
-- (internal/transport/transport.go).
use webull.Common.{
  length, ℕ, zero, suc, max, ◌≡◌, refl, ◌⊎◌, inl, inr, Bool, Option, none, some, All,
}
use webull.Errors.{Error, Result, ok, err}
use webull.Transport.Url.{Bytes}
use webull.Transport.Http.{Headers, HttpRequest, Env, Net}
use webull.Transport.Doer.Safety.{IsGuarded, client_do_once}
use webull.Transport.Attempt.{Doer, Request, encode_body, authorize, build, attempt, sleep}
use webull.Transport.Doer.{
  is_more, Rounds, judge, proceed, after_pause, try_once, round, rounds, send_authorized,
  send_encoded, do_request,
}

abbrev pub AllSent : (HttpRequest → Type 0) → Net → Type 0
AllSent P net = All P net.sent

module _ {ℓ κ} {B : Type ℓ} {O : Type κ} (P : HttpRequest → Type 0) (d : Doer) (env : Env)
    (req : Request B) (want : Option (Bytes → Result O)) (guarded : IsGuarded d)
    (built : (body : Bytes) (auth : Headers) (n : ℕ) → P (build d req body auth n)) where
  abbrev Keeps : Rounds O → Type 0
  Keeps f = (net : Net) → AllSent P net → AllSent P (f net).1

  attempt-AllSent :
      (body : Bytes) (auth : Headers) (net : Net)
      → AllSent P net
      → AllSent P (attempt d env req body auth net).1
  unfolding attempt
  attempt-AllSent body auth net h =
      by_error (env.build_error req.method req.host req.path req.query) refl
    where
      by_error :
          (e : Option Error)
          → env.build_error req.method req.host req.path req.query ≡ e
          → AllSent P (attempt d env req body auth net).1
      by_error none q =
          rw
            (attempt, q, client_do_once d env (build d req body auth (length net.sent)) net guarded)
            (built body auth _, h)
      by_error (some e) q = rw (attempt, q) h

  proceed-AllSent :
      (v : Result (Option O) ⊎ Error) (again : Error → Rounds O)
      → ((e : Error) → Keeps (again e))
      → Keeps (proceed v again)
  proceed-AllSent (inl r) again k net h = h
  proceed-AllSent (inr e) again k net h = k e net h

  try_once-AllSent :
      (body : Bytes) (auth : Headers) (more : Bool) (again : Error → Rounds O)
      → ((e : Error) → Keeps (again e))
      → Keeps (try_once d env req body auth want more again)
  unfolding try_once
  try_once-AllSent body auth more again k net h =
      proceed-AllSent (judge d req.method want more (attempt d env req body auth net).0) again k
        (attempt d env req body auth net).1 (attempt-AllSent body auth net h)

  after_pause-AllSent :
      (stop last : Option Error) (go : Rounds O) → Keeps go → Keeps (after_pause stop last go)
  after_pause-AllSent none last go k net h = k net h
  after_pause-AllSent (some e) last go k net h = h

  round-AllSent :
      (body : Bytes) (auth : Headers) (more : Bool) (k : ℕ) (last : Option Error)
      (again : Error → Rounds O)
      → ((e : Error) → Keeps (again e))
      → Keeps (round d env req body auth want more k last again)
  unfolding round sleep
  round-AllSent body auth more zero last again keep net h =
      try_once-AllSent body auth more again keep net h
  round-AllSent body auth more (suc k) last again keep net h =
      after_pause-AllSent _ last (try_once d env req body auth want more again)
        (try_once-AllSent body auth more again keep) _ h

  rounds-AllSent :
      (body : Bytes) (auth : Headers) (left k : ℕ) (last : Option Error)
      → Keeps (rounds d env req body auth want left k last)
  unfolding rounds
  rounds-AllSent body auth zero k last net h = h
  rounds-AllSent body auth (suc left) k last net h =
      round-AllSent body auth (is_more left) k last
        (λ e n. rounds d env req body auth want left (suc k) (some e) n)
        (λ e. rounds-AllSent body auth left (suc k) (some e)) net h

  send_authorized-AllSent :
      (body : Bytes) (r : Result Headers) → Keeps (send_authorized d env req want body r)
  unfolding send_authorized
  send_authorized-AllSent body (err e) net h = h
  send_authorized-AllSent body (ok auth) net h =
      rounds-AllSent body auth (max d.retry.max_attempts 1) 0 none net h

  send_encoded-AllSent :
      (r : Result Bytes) (net : Net)
      → AllSent P net
      → AllSent P (authorize d net).1
      → AllSent P (send_encoded d env req want r net).1
  unfolding send_encoded
  send_encoded-AllSent (err e) net h a = h
  send_encoded-AllSent (ok body) net h a =
      send_authorized-AllSent body (authorize d net).0 (authorize d net).1 a

  pub do_request-AllSent :
      (marshal : B → Result Bytes) (net : Net)
      → AllSent P net
      → AllSent P (authorize d net).1
      → AllSent P (do_request marshal d env req want net).1
  unfolding do_request
  do_request-AllSent marshal net h a = send_encoded-AllSent (encode_body marshal req) net h a
