-- ===== src/Events/Stream/Lossless.antt =====
-- Recv passes over no business event (events/client.go).
use mathlib.Core.List.{append_assoc}
use webull.Common.{
  ◌+◌, ◌≤◌, ◌≡◌, refl, sym, ap, ◌∙◌, ◌≢◌, ◌⊎◌, inl, inr, Bool, true, false, not, Option, none, some,
  List, [], ◌∷◌, ◌++◌, arith, beq, if◌then◌else◌, Bool-cases, All, All-append,
}
use webull.Common.Int.{ℤ}
use webull.Errors.{Error, auth_failed, connection_limit, sentinel, text, wrap}
use webull.Events.{
  auth_error, num_of_conn_exceed, subscribe_success, subscribe_expired, StreamResponse, EventCodec,
  event_of, StreamError, wrap_status, plain_error, control_error, retryable, is_terminal,
}
use webull.Events.Stream.{
  Dial, Input, Phase, State, Heard, on_stream, opening, opened_by, dial_failed, marshal_failed,
  call_failed, first_failed, ready, acknowledge, delivered, ended, connect, is_spent, live, Next,
  start_reconnect, after_retry, after_renewal, is_heartbeat, after_control, on_response, on_break,
  on_pause, step_in, step, heard_in, heard, Report, carry, run, recv, receiving, pausing, retrying,
  renewing, blocked, returned,
}

-- The event types that the protocol keeps for itself.
abbrev pub IsControl : StreamResponse → Type 0
IsControl r = r.event_type ≤ 4

-- A response that was taken and not delivered: a control response on the stream, or the first one of a
-- connection, which acknowledges the subscription or makes connect fail.
abbrev pub IsPassed : Heard → Type 0
IsPassed (on_stream r) = IsControl r
IsPassed (opening r closed) =
    (r.event_type ≡ subscribe_success) ⊎ ((e : StreamError) × (connect (ready r closed) ≡ some e))

module _ {D T : Type 0} (codec : EventCodec D T) (budget : ℤ) where
  -- Of the responses taken: where an event was delivered it is that of the last one, which is a business
  -- event on the stream, and the others were rightly passed; else all were.
  abbrev pub IsLossless : List Heard → Report codec budget → Type 0
  IsLossless rs (returned (delivered ev)) =
      (before : List Heard) × (r : StreamResponse) × (rs ≡ before ++ (on_stream r ∷ []))
      × All IsPassed before
      × (5 ≤ r.event_type)
      × (ev ≡ event_of codec r)
  IsLossless rs (returned (ended e)) = All IsPassed rs
  IsLossless rs (blocked s) = All IsPassed rs

  -- The same of one step, which sees at most one response.
  abbrev IsLosslessStep : List Heard → Next codec budget → Type 0
  IsLosslessStep rs (inl s) = All IsPassed rs
  IsLosslessStep rs (inr o) = IsLossless rs (returned o)

  start_reconnect-IsLosslessStep :
      (s : State) (rs : List Heard)
      → All IsPassed rs
      → IsLosslessStep rs (start_reconnect codec budget s)
  unfolding start_reconnect
  start_reconnect-IsLosslessStep s rs h = elim (Bool-cases (is_spent budget (s.failures + 1))) [
    | inl e ↦ rw e h
    | inr e ↦ rw e h
  ]

  ended-IsLosslessStep :
      (b : Bool) (e : StreamError) (n : Next codec budget) (rs : List Heard)
      → All IsPassed rs
      → IsLosslessStep rs n
      → IsLosslessStep rs (if b then inr (ended e) else n)
  ended-IsLosslessStep true e n rs h k = h
  ended-IsLosslessStep false e n rs h k = k

  control_error-cases :
      (r : StreamResponse)
      → ((e : StreamError) × (control_error r ≡ some e) × IsControl r)
        ⊎ ((control_error r ≡ none)
            × (r.event_type ≢ auth_error)
            × (r.event_type ≢ num_of_conn_exceed))
  unfolding control_error
  control_error-cases r = elim (Bool-cases (beq r.event_type auth_error)) [
    | inl a ↦ inl (plain_error (wrap "payload" (sentinel auth_failed)), rw a refl, ground arith)
    | inr a ↦ elim (Bool-cases (beq r.event_type num_of_conn_exceed)) [
      | inl l ↦
          inl
            (plain_error (wrap "payload" (sentinel connection_limit)), rw (a, l) refl, ground arith)
      | inr l ↦ inr (rw (a, l) refl, ground arith, ground arith)
    ]
  ]

  -- A response is a control response, or a business event that is delivered.
  on_response-IsLosslessStep :
      (s : State) (r : StreamResponse)
      → IsLosslessStep (on_stream r ∷ []) (on_response codec budget s r)
  unfolding on_response after_control
  on_response-IsLosslessStep s r = elim (control_error-cases r) [
    | inl (e, a, c) ↦ rw a (c, tt)
    | inr (a, na, nl) ↦ elim (Bool-cases (is_heartbeat codec budget r)) [
      | inl h ↦ rw (a, h) (ground arith, tt)
      | inr h ↦ elim (Bool-cases (beq r.event_type subscribe_expired)) [
        | inl x ↦ rw (a, h, x) (ground arith, tt)
        | inr x ↦ rw (a, h, x) ([], r, refl, tt, ground arith, refl)
      ]
    ]
  ]

  on_break-IsLosslessStep :
      (s : State) (c : Option Error) (e : StreamError)
      → IsLosslessStep [] (on_break codec budget s c e)
  unfolding on_break
  on_break-IsLosslessStep s (some c) e = tt
  on_break-IsLosslessStep s none e =
      ended-IsLosslessStep (not (retryable e)) (wrap_status "events: stream" e)
        (start_reconnect codec budget s) [] tt (start_reconnect-IsLosslessStep s [] tt)

  attempt-IsLosslessStep :
      (s : State) (x : Option StreamError) (rs : List Heard)
      → All IsPassed rs
      → IsLosslessStep rs (after_retry codec budget s x)
        × IsLosslessStep rs (after_renewal codec budget s x)
  unfolding after_retry after_renewal
  attempt-IsLosslessStep s none rs h = (h, h)
  attempt-IsLosslessStep s (some e) rs h =
      let k =
        ended-IsLosslessStep (is_terminal e) e (start_reconnect codec budget s) rs h
          (start_reconnect-IsLosslessStep s rs h) in
      (k, k)

  refused_opening :
      (r : StreamResponse) (closed : Option Error) (x : Option StreamError)
      → control_error r ≡ x
      → beq r.event_type subscribe_success ≡ false
      → (e : StreamError) × (connect (ready r closed) ≡ some e)
  unfolding connect acknowledge
  refused_opening r closed (some e) q b = (e, rw (connect, acknowledge, q) refl)
  refused_opening r closed none q b =
      (plain_error (text "events: unexpected first response"), rw (connect, acknowledge, q, b) refl)

  acknowledged-IsPassed : (r : StreamResponse) (closed : Option Error) → IsPassed (opening r closed)
  acknowledged-IsPassed r closed = elim (Bool-cases (beq r.event_type subscribe_success)) [
    | inl e ↦ inl (ground (arith, e))
    | inr e ↦ inr (refused_opening r closed (control_error r) refl e)
  ]

  opened_by-IsPassed : (d : Dial) → All IsPassed (opened_by codec budget d [])
  opened_by-IsPassed (dial_failed e) = tt
  opened_by-IsPassed (marshal_failed e) = tt
  opened_by-IsPassed (call_failed e) = tt
  opened_by-IsPassed (first_failed e) = tt
  opened_by-IsPassed (ready r closed) = (acknowledged-IsPassed r closed, tt)

  on_pause-IsLosslessStep :
      (s : State) (x : Option Error) → IsLosslessStep [] (on_pause codec budget s x)
  on_pause-IsLosslessStep s none = tt
  on_pause-IsLosslessStep s (some c) = tt

  step_in-IsLosslessStep :
      (p : Phase) (s : State) (closed pause : Option Error) (x : StreamResponse ⊎ StreamError)
      (d : Dial)
      → IsLosslessStep (heard_in codec budget p x d []) (
          step_in codec budget p s
            (record { response = x; closed = closed; pause = pause; dial = d }))
  step_in-IsLosslessStep receiving s closed pause (inl r) d = on_response-IsLosslessStep s r
  step_in-IsLosslessStep receiving s closed pause (inr e) d = on_break-IsLosslessStep s closed e
  step_in-IsLosslessStep pausing s closed pause x d = on_pause-IsLosslessStep s pause
  step_in-IsLosslessStep retrying s closed pause x d =
      (attempt-IsLosslessStep s (connect d) _ (opened_by-IsPassed d)).0
  step_in-IsLosslessStep renewing s closed pause x d =
      (attempt-IsLosslessStep s (connect d) _ (opened_by-IsPassed d)).1

  opened_by-append :
      (d : Dial) (rs : List Heard) → opened_by codec budget d rs ≡ opened_by codec budget d [] ++ rs
  opened_by-append (dial_failed e) rs = refl
  opened_by-append (marshal_failed e) rs = refl
  opened_by-append (call_failed e) rs = refl
  opened_by-append (first_failed e) rs = refl
  opened_by-append (ready r closed) rs = refl

  heard_in-append :
      (p : Phase) (x : StreamResponse ⊎ StreamError) (d : Dial) (rs : List Heard)
      → heard_in codec budget p x d rs ≡ heard_in codec budget p x d [] ++ rs
  heard_in-append receiving (inl r) d rs = refl
  heard_in-append receiving (inr e) d rs = refl
  heard_in-append pausing x d rs = refl
  heard_in-append retrying x d rs = opened_by-append d rs
  heard_in-append renewing x d rs = opened_by-append d rs

  append-IsLossless :
      (ss rs : List Heard) (report : Report codec budget)
      → All IsPassed ss
      → IsLossless rs report
      → IsLossless (ss ++ rs) report
  append-IsLossless ss rs (blocked s) h k = All-append IsPassed ss rs h k
  append-IsLossless ss rs (returned (ended e)) h k = All-append IsPassed ss rs h k
  append-IsLossless ss rs (returned (delivered ev)) h k =
      let (before, r, e, c, b, v) = k in
      (
        ss ++ before,
        r,
        ap (λ xs. ss ++ xs) e ∙ sym (append_assoc ss before (on_stream r ∷ [])),
        All-append IsPassed ss before h c,
        b,
        v,
      )

  carry-IsLossless :
      (s : State) (i : Input) (n : Next codec budget)
      (again : State → List Heard × Report codec budget)
      → IsLosslessStep (heard codec budget s i []) n
      → ((s' : State) → IsLossless (again s').0 (again s').1)
      → IsLossless (carry codec budget s i n again).0 (carry codec budget s i n again).1
  carry-IsLossless s i (inr o) again h k = h
  carry-IsLossless s i (inl s') again h k =
      rw (heard_in-append s.phase i.response i.dial (again s').0)
        (append-IsLossless (heard codec budget s i []) (again s').0 (again s').1 h (k s'))

  run-IsLossless :
      (s : State) (is : List Input) → IsLossless (run codec budget s is).0 (run codec budget s is).1
  unfolding run step
  run-IsLossless s [] = tt
  run-IsLossless s (i ∷ is) =
      carry-IsLossless s i (step codec budget s i) (λ s'. run codec budget s' is)
        (step_in-IsLosslessStep s.phase s i.closed i.pause i.response i.dial)
        (λ s'. run-IsLossless s' is)

  -- A call of Recv loses no business event of a subscription, through whatever failures, reconnects and
  -- renewals. An event that it returns is that of the last response taken from a stream. Every other
  -- response that it takes from a stream, and every one if it waits or returns an error, is a control
  -- response; and of a new connection that is kept, the first response, which no call returns, is the
  -- acknowledgement. A connection that begins with anything else, be it a business event, makes connect
  -- fail.
  pub recv-IsLossless :
      (is : List Input) → IsLossless (recv codec budget is).0 (recv codec budget is).1
  unfolding recv
  recv-IsLossless is = run-IsLossless live is
