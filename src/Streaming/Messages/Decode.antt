-- ===== src/Streaming/Messages/Decode.antt =====
-- decode of streaming/messages.go.
use webull.Common.{String, Option, none, some, [], ◌==◌, if◌then◌else◌}
use webull.Errors.{Result, ok, err}
use webull.Transport.Url.{Bytes}
use webull.Streaming.Wire.{PbSnapshot, PbQuote, PbTick, PbEventSnapshot, PbEventQuote, PbEventTick}
use webull.Streaming.Messages.{Snapshot, Quote, Tick, EventSnapshot, EventQuote, EventTick}
use webull.Streaming.Messages.Fields.{
  DecimalParser, snapshot_of, quote_of, tick_of, event_snapshot_of, event_quote_of, event_tick_of,
}

-- `notice` is the text of a notice message, as bytes.
pub record Message (D : Type 0) : Type 0 where
  pub message_type : String
  pub snapshot : Option (Snapshot D)
  pub quote : Option (Quote D)
  pub tick : Option (Tick D)
  pub event_snapshot : Option (EventSnapshot D)
  pub event_quote : Option (EventQuote D)
  pub event_tick : Option (EventTick D)
  pub notice : Bytes
  pub raw : Bytes

-- The cases of decode's switch.
pub data Topic : Type 0 where
  echo_topic snapshot_topic quote_topic tick_topic : Topic
  event_snapshot_topic event_quote_topic event_tick_topic notice_topic other_topic : Topic

unfoldable pub topic_of : String → Topic
topic_of t =
    if t == "echo"
    then echo_topic
    else if t == "snapshot"
    then snapshot_topic
    else if t == "quote"
    then quote_topic
    else if t == "tick"
    then tick_topic
    else if t == "event-snapshot"
    then event_snapshot_topic
    else if t == "event-quote"
    then event_quote_topic
    else if t == "event-tick"
    then event_tick_topic
    else if t == "notice"
    then notice_topic
    else other_topic

-- proto.Unmarshal for each message.
pub record Unmarshal : Type 0 where
  pub read_snapshot : Bytes → Result PbSnapshot
  pub read_quote : Bytes → Result PbQuote
  pub read_tick : Bytes → Result PbTick
  pub read_event_snapshot : Bytes → Result PbEventSnapshot
  pub read_event_quote : Bytes → Result PbEventQuote
  pub read_event_tick : Bytes → Result PbEventTick

module _ {D : Type 0} (parser : DecimalParser D) where
  abbrev pub untyped : String → Message D
  untyped t = record {
    message_type = t;
    snapshot = none;
    quote = none;
    tick = none;
    event_snapshot = none;
    event_quote = none;
    event_tick = none;
    notice = [];
    raw = [];
  }

  abbrev pub with_snapshot : Result PbSnapshot → Result (Option (Message D))
  with_snapshot (err e) = err e
  with_snapshot (ok pb) =
      ok (some (record (untyped "snapshot") { snapshot = some (snapshot_of parser pb) }))

  abbrev pub with_quote : Result PbQuote → Result (Option (Message D))
  with_quote (err e) = err e
  with_quote (ok pb) = ok (some (record (untyped "quote") { quote = some (quote_of parser pb) }))

  abbrev pub with_tick : Result PbTick → Result (Option (Message D))
  with_tick (err e) = err e
  with_tick (ok pb) = ok (some (record (untyped "tick") { tick = some (tick_of parser pb) }))

  abbrev pub with_event_snapshot : Result PbEventSnapshot → Result (Option (Message D))
  with_event_snapshot (err e) = err e
  with_event_snapshot (ok pb) = ok (
      some
        (record (untyped "event-snapshot") { event_snapshot = some (event_snapshot_of parser pb) }))

  abbrev pub with_event_quote : Result PbEventQuote → Result (Option (Message D))
  with_event_quote (err e) = err e
  with_event_quote (ok pb) =
      ok (some (record (untyped "event-quote") { event_quote = some (event_quote_of parser pb) }))

  abbrev pub with_event_tick : Result PbEventTick → Result (Option (Message D))
  with_event_tick (err e) = err e
  with_event_tick (ok pb) =
      ok (some (record (untyped "event-tick") { event_tick = some (event_tick_of parser pb) }))

  unfoldable pub decode_as : Unmarshal → Topic → String → Bytes → Result (Option (Message D))
  decode_as u echo_topic t payload = ok none
  decode_as u snapshot_topic t payload = with_snapshot (u.read_snapshot payload)
  decode_as u quote_topic t payload = with_quote (u.read_quote payload)
  decode_as u tick_topic t payload = with_tick (u.read_tick payload)
  decode_as u event_snapshot_topic t payload = with_event_snapshot (u.read_event_snapshot payload)
  decode_as u event_quote_topic t payload = with_event_quote (u.read_event_quote payload)
  decode_as u event_tick_topic t payload = with_event_tick (u.read_event_tick payload)
  decode_as u notice_topic t payload =
      ok (some (record (untyped "notice") { notice = payload; raw = payload }))
  decode_as u other_topic t payload = ok (some (record (untyped t) { raw = payload }))

  -- decode: the error, nothing for the echo topic, or the message.
  unfoldable pub decode : Unmarshal → String → Bytes → Result (Option (Message D))
  decode u t payload = decode_as u (topic_of t) t payload
