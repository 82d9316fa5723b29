-- ===== src/Streaming/Connecting.antt =====
-- Connect and Close of streaming/client.go and streaming/stream.go, and Recv's choice. What the MQTT
-- library and the context do in the meantime is an argument. Durations are in nanoseconds.
use webull.Common.{
  ℕ, ◌+◌, String, ◌==◌, Bool, true, false, Option, none, some, List, [], ◌∷◌, if◌then◌else◌,
}
use webull.Common.Int.{ℤ, pos, leb_ℤ}
use webull.Errors.{Error, Result, ok, err, wrap, text}
use webull.Streaming.Queue.{Queue, new_queue, take_message}

pub record ConnectOptions : Type 0 where
  pub session_id : String
  pub connect_timeout : ℤ
  pub reconnect_delay : ℤ
  pub queue_size : ℤ

abbrev or_default : ℤ → ℤ → ℤ
or_default d n = if leb_ℤ n (pos 0) then d else n

-- The defaults that Connect fills in; `fresh` is a new session's identifier.
unfoldable pub with_defaults : String → ConnectOptions → ConnectOptions
with_defaults fresh o = record {
  session_id = if o.session_id == "" then fresh else o.session_id;
  connect_timeout = or_default (pos 10000000000) o.connect_timeout;
  reconnect_delay = or_default (pos 5000000000) o.reconnect_delay;
  queue_size = or_default (pos 256) o.queue_size;
}

-- The first of the options given, if any.
abbrev pub first_options : List ConnectOptions → ConnectOptions
first_options [] = record {
  session_id = "";
  connect_timeout = pos 0;
  reconnect_delay = pos 0;
  queue_size = pos 0;
}
first_options (o ∷ os) = o

-- What comes of the handshake: the context ends first, or the token completes with an error or without.
pub data Handshake : Type 0 where
  timed_out refused : Error → Handshake
  established : Handshake

-- A connection, with the number of calls of Disconnect on it.
pub record Link (M : Type 0) : Type 0 where
  pub options : ConnectOptions
  pub queue : Queue M
  pub closed : Bool
  pub disconnects : ℕ

abbrev pub fresh_link : {M : Type 0} → ConnectOptions → Link M
fresh_link o = record {
  options = o;
  queue = new_queue o.queue_size;
  closed = false;
  disconnects = 0;
}

abbrev pub disconnect : {M : Type 0} → Link M → Link M
disconnect l = record l { disconnects = l.disconnects + 1 }

-- Stream.connect: the error, if any, and the connection.
unfoldable pub connect_link : {M : Type 0} → Link M → Handshake → Option Error × Link M
connect_link l (timed_out e) = (some e, disconnect l)
connect_link l (refused e) = (some (wrap "streaming: connect" e), disconnect l)
connect_link l established = (none, l)

-- Connect
unfoldable pub connect_stream :
    {M : Type 0} → String → List ConnectOptions → Handshake → Option Error × Link M
connect_stream fresh os h = connect_link (fresh_link (with_defaults fresh (first_options os))) h

-- Close, of which only the first call does something.
unfoldable pub close_stream : {M : Type 0} → Link M → Link M
close_stream l = if l.closed then l else record (disconnect l) { closed = true }

-- The cases of Recv's select; of those that are ready, Go takes any.
pub data Choice : Type 0 where
  context_done : Error → Choice
  stream_closed message_ready : Choice

abbrev take_ready : {M : Type 0} → Link M → Option M × Queue M → Option (Result M) × Link M
take_ready l (none, q) = (none, l)
take_ready l (some m, q) = (some (ok m), record l { queue = q })

-- Recv, given the case that is taken: nothing where it cannot be taken.
unfoldable pub recv_choice : {M : Type 0} → Choice → Link M → Option (Result M) × Link M
recv_choice (context_done e) l = (some (err e), l)
recv_choice stream_closed l =
    if l.closed then (some (err (text "streaming: stream closed")), l) else (none, l)
recv_choice message_ready l = take_ready l (take_message l.queue)
