-- ===== src/Events/Stream.antt =====
-- Recv, renew, reconnect and connect of events/client.go, as a machine that asks its surroundings one
-- thing at a time: for the next response, for a pause, for a connection. An `Input` has the answer for
-- whichever is asked. A run over a list of inputs that asks for more has blocked.
pub mod Lossless
pub mod Budget
pub mod Connections
use webull.Common.{
  ℕ, ◌+◌, ◌⊎◌, inl, inr, Bool, not, ◌&&◌, ◌||◌, Option, none, some, List, [], ◌∷◌, beq,
  if◌then◌else◌,
}
use webull.Common.Int.{ℤ, ltb_ℤ, pos}
use webull.Errors.{Error, text}
use webull.Events.{
  Event, subscribe_success, ping, subscribe_expired, StreamResponse, EventCodec, event_of,
  StreamError, wrap_status, plain_error, control_error, retryable, is_terminal,
}

-- How an attempt to connect goes. `ready` has the first response, and the error of the context if the
-- stream was closed in the meantime.
pub data Dial : Type 0 where
  dial_failed marshal_failed call_failed first_failed : StreamError → Dial
  ready : StreamResponse → Option Error → Dial

-- What the surroundings answer: the next response or the stream's error with that of the context, the
-- end of the context during a pause, and an attempt to connect.
pub record Input : Type 0 where
  pub response : StreamResponse ⊎ StreamError
  pub closed : Option Error
  pub pause : Option Error
  pub dial : Dial

-- Where the code is: in Recv before rpc.Recv, in reconnect before the pause or before the attempt, or
-- in renew before the attempt.
pub data Phase : Type 0 where
  receiving pausing retrying renewing : Phase

-- `opened` is the number of connections open.
pub record State : Type 0 where
  pub phase : Phase
  pub failures : ℕ
  pub opened : ℕ

-- A response that was taken from the stream: by Recv, or by connect, which is given the first one of a
-- connection, with the error of the context if the stream was closed in the meantime.
pub data Heard : Type 0 where
  on_stream : StreamResponse → Heard
  opening : StreamResponse → Option Error → Heard

-- What Recv returns.
pub data Outcome (D T : Type 0) : Type 0 where
  delivered : Event D T → Outcome D T
  ended : StreamError → Outcome D T

-- connect, from the first response on.
unfoldable pub acknowledge : StreamResponse → Option Error → Option StreamError
acknowledge r closed = elim (control_error r) [
  | some e ↦ some e
  | none ↦
      if beq r.event_type subscribe_success
      then elim closed [ some e ↦ some (plain_error e) | none ↦ none ]
      else some (plain_error (text "events: unexpected first response"))
]

-- connect: the error, or none once the subscription is acknowledged. A connection that is not kept is
-- closed.
unfoldable pub connect : Dial → Option StreamError
connect (dial_failed e) = some (wrap_status "events: dial" e)
connect (marshal_failed e) = some (wrap_status "events: marshal request" e)
connect (call_failed e) = some (wrap_status "events: subscribe" e)
connect (first_failed e) = some (wrap_status "events: subscribe" e)
connect (ready r closed) = acknowledge r closed

abbrev pub gave_up : StreamError
gave_up = plain_error (text "events: gave up after reconnect attempts")

-- *failures > s.req.MaxReconnectAttempts, where the budget is not unlimited.
abbrev pub is_spent : ℤ → ℕ → Bool
is_spent budget failures = ltb_ℤ (pos 0) budget && ltb_ℤ budget (pos failures)

-- A call of Recv on a live stream.
abbrev pub live : State
live = record { phase = receiving; failures = 0; opened = 1 }

module _ {D T : Type 0} (codec : EventCodec D T) (budget : ℤ) where
  -- A step either goes on or returns.
  abbrev pub Next : Type 0
  Next = State ⊎ Outcome D T

  -- The top of reconnect's loop, up to the pause.
  unfoldable pub start_reconnect : State → Next
  start_reconnect s =
      if is_spent budget (s.failures + 1)
      then inr (ended gave_up)
      else inl (record { phase = pausing; failures = s.failures + 1; opened = 0 })

  -- The end of reconnect's loop.
  unfoldable pub after_retry : State → Option StreamError → Next
  after_retry s none = inl (record { phase = receiving; failures = 0; opened = s.opened + 1 })
  after_retry s (some e) = if is_terminal e then inr (ended e) else start_reconnect s

  -- renew, once it has tried to connect.
  unfoldable pub after_renewal : State → Option StreamError → Next
  after_renewal s none = inl (record s { phase = receiving; opened = s.opened + 1 })
  after_renewal s (some e) = if is_terminal e then inr (ended e) else start_reconnect s

  abbrev pub is_heartbeat : StreamResponse → Bool
  is_heartbeat r = beq r.event_type subscribe_success || beq r.event_type ping

  unfoldable pub after_control : State → StreamResponse → Option StreamError → Next
  after_control s r (some e) = inr (ended e)
  after_control s r none =
      if is_heartbeat r
      then inl s
      else if beq r.event_type subscribe_expired
      then inl (record s { phase = renewing; opened = 0 })
      else inr (delivered (event_of codec r))

  -- What Recv makes of a response.
  unfoldable pub on_response : State → StreamResponse → Next
  on_response s r = after_control s r (control_error r)

  -- What Recv makes of the stream's error.
  unfoldable pub on_break : State → Option Error → StreamError → Next
  on_break s (some c) e = inr (ended (plain_error c))
  on_break s none e =
      if not (retryable e) then inr (ended (wrap_status "events: stream" e)) else start_reconnect s

  abbrev pub on_receive : State → Option Error → StreamResponse ⊎ StreamError → Next
  on_receive s closed (inl r) = on_response s r
  on_receive s closed (inr e) = on_break s closed e

  abbrev pub on_pause : State → Option Error → Next
  on_pause s (some c) = inr (ended (plain_error c))
  on_pause s none = inl (record s { phase = retrying })

  abbrev pub step_in : Phase → State → Input → Next
  step_in receiving s i = on_receive s i.closed i.response
  step_in pausing s i = on_pause s i.pause
  step_in retrying s i = after_retry s (connect i.dial)
  step_in renewing s i = after_renewal s (connect i.dial)

  unfoldable pub step : State → Input → Next
  step s i = step_in s.phase s i

  -- The responses that Recv and connect have taken, in order.
  abbrev pub opened_by : Dial → List Heard → List Heard
  opened_by (ready r closed) rs = opening r closed ∷ rs
  opened_by _ rs = rs

  abbrev pub heard_in : Phase → StreamResponse ⊎ StreamError → Dial → List Heard → List Heard
  heard_in receiving (inl r) d rs = on_stream r ∷ rs
  heard_in receiving (inr e) d rs = rs
  heard_in pausing x d rs = rs
  heard_in retrying x d rs = opened_by d rs
  heard_in renewing x d rs = opened_by d rs

  abbrev pub heard : State → Input → List Heard → List Heard
  heard s i rs = heard_in s.phase i.response i.dial rs

  -- The loop, from a state on. What is left of the inputs goes to the next call.
  pub data Report : Type 0 where
    blocked : State → Report
    returned : Outcome D T → Report

  abbrev pub carry : State → Input → Next → (State → List Heard × Report) → List Heard × Report
  carry s i (inr o) again = (heard s i [], returned o)
  carry s i (inl s') again = let (rs, end) = again s' in (heard s i rs, end)

  unfoldable pub run : State → List Input → List Heard × Report
  run s [] = ([], blocked s)
  run s (i ∷ is) = carry s i (step s i) (λ s'. run s' is)

  unfoldable pub recv : List Input → List Heard × Report
  recv is = run live is
