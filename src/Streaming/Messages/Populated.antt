-- ===== src/Streaming/Messages/Populated.antt =====
-- What decode of streaming/messages.go populates.
use webull.Common.{
  String, ◌≡◌, refl, true, false, Option, none, some, List, [], ◌∷◌, arith, ◌==◌, eq_iff,
  if◌then◌else◌, contains,
}
use webull.Errors.{Result, ok, err}
use webull.Transport.Url.{Bytes}
use webull.Streaming.Wire.{PbSnapshot, PbQuote, PbTick, PbEventSnapshot, PbEventQuote, PbEventTick}
use webull.Streaming.Messages.Fields.{DecimalParser}
use webull.Streaming.Messages.Decode.{
  Message, Topic, topic_of, Unmarshal, with_snapshot, with_quote, with_tick, with_event_snapshot,
  with_event_quote, with_event_tick, decode_as, decode, echo_topic, snapshot_topic, quote_topic,
  tick_topic, event_snapshot_topic, event_quote_topic, event_tick_topic, notice_topic, other_topic,
}

-- The topics whose payload has a type.
abbrev pub typed_topics : List String
typed_topics = "snapshot" ∷ "quote" ∷ "tick" ∷ "event-snapshot" ∷ "event-quote" ∷ "event-tick" ∷ []

abbrev name_if {ℓ} : {A : Type ℓ} → String → Option A → List String → List String
name_if s none rest = rest
name_if s (some a) rest = s ∷ rest

-- The typed fields that hold something, by the names of their topics.
abbrev pub populated : {D : Type 0} → Message D → List String
populated m = name_if "snapshot" m.snapshot (
    name_if "quote" m.quote (
      name_if "tick" m.tick (
        name_if "event-snapshot" m.event_snapshot
          (name_if "event-quote" m.event_quote (name_if "event-tick" m.event_tick [])))))

-- What a text is that a case of the switch takes.
abbrev Reads : Topic → String → Type 0
Reads echo_topic t = t ≡ "echo"
Reads snapshot_topic t = t ≡ "snapshot"
Reads quote_topic t = t ≡ "quote"
Reads tick_topic t = t ≡ "tick"
Reads event_snapshot_topic t = t ≡ "event-snapshot"
Reads event_quote_topic t = t ≡ "event-quote"
Reads event_tick_topic t = t ≡ "event-tick"
Reads notice_topic t = t ≡ "notice"
Reads other_topic t =
    (contains typed_topics t ≡ false) × ((t == "echo") ≡ false) × ((t == "notice") ≡ false)

flip : (s t : String) → (s == t) ≡ (t == s)
flip s t = ground (arith, eq_iff s t, eq_iff t s)

topic_of-Reads : (k : Topic) (t : String) → topic_of t ≡ k → Reads k t
unfolding topic_of
topic_of-Reads echo_topic t h = ground (arith, h, eq_iff t "echo")
topic_of-Reads snapshot_topic t h = ground (arith, h, eq_iff t "snapshot")
topic_of-Reads quote_topic t h = ground (arith, h, eq_iff t "quote")
topic_of-Reads tick_topic t h = ground (arith, h, eq_iff t "tick")
topic_of-Reads event_snapshot_topic t h = ground (arith, h, eq_iff t "event-snapshot")
topic_of-Reads event_quote_topic t h = ground (arith, h, eq_iff t "event-quote")
topic_of-Reads event_tick_topic t h = ground (arith, h, eq_iff t "event-tick")
topic_of-Reads notice_topic t h = ground (arith, h, eq_iff t "notice")
topic_of-Reads other_topic t h = ground (
  arith,
  h,
  flip "snapshot" t,
  flip "quote" t,
  flip "tick" t,
  flip "event-snapshot" t,
  flip "event-quote" t,
  flip "event-tick" t,
)

module _ {D : Type 0} (parser : DecimalParser D) (u : Unmarshal) where
  abbrev IsPopulated : String → Bytes → Message D → Type 0
  IsPopulated t payload m =
      (m.message_type ≡ t)
      × (populated m ≡ (if contains typed_topics t then t ∷ [] else []))
      × (m.notice ≡ (if t == "notice" then payload else []))
      × (m.raw ≡ (if contains typed_topics t then [] else payload))

  -- The same of whatever decode returns.
  abbrev pub IsDecoded : String → Bytes → Result (Option (Message D)) → Type 0
  IsDecoded t payload (ok (some m)) = IsPopulated t payload m
  IsDecoded t payload (ok none) = t ≡ "echo"
  IsDecoded t payload (err e) = contains typed_topics t ≡ true

  decode_as-IsDecoded :
      (k : Topic) (t : String) (payload : Bytes)
      → Reads k t
      → IsDecoded t payload (decode_as parser u k t payload)
  unfolding decode_as
  decode_as-IsDecoded echo_topic t payload h = h
  decode_as-IsDecoded snapshot_topic t payload h = rw h (go (u.read_snapshot payload))
    where
      go : (r : Result PbSnapshot) → IsDecoded "snapshot" payload (with_snapshot parser r)
      go (ok pb) = (refl, refl, refl, refl)
      go (err e) = refl
  decode_as-IsDecoded quote_topic t payload h = rw h (go (u.read_quote payload))
    where
      go : (r : Result PbQuote) → IsDecoded "quote" payload (with_quote parser r)
      go (ok pb) = (refl, refl, refl, refl)
      go (err e) = refl
  decode_as-IsDecoded tick_topic t payload h = rw h (go (u.read_tick payload))
    where
      go : (r : Result PbTick) → IsDecoded "tick" payload (with_tick parser r)
      go (ok pb) = (refl, refl, refl, refl)
      go (err e) = refl
  decode_as-IsDecoded event_snapshot_topic t payload h = rw h (go (u.read_event_snapshot payload))
    where
      go :
          (r : Result PbEventSnapshot)
          → IsDecoded "event-snapshot" payload (with_event_snapshot parser r)
      go (ok pb) = (refl, refl, refl, refl)
      go (err e) = refl
  decode_as-IsDecoded event_quote_topic t payload h = rw h (go (u.read_event_quote payload))
    where
      go : (r : Result PbEventQuote) → IsDecoded "event-quote" payload (with_event_quote parser r)
      go (ok pb) = (refl, refl, refl, refl)
      go (err e) = refl
  decode_as-IsDecoded event_tick_topic t payload h = rw h (go (u.read_event_tick payload))
    where
      go : (r : Result PbEventTick) → IsDecoded "event-tick" payload (with_event_tick parser r)
      go (ok pb) = (refl, refl, refl, refl)
      go (err e) = refl
  decode_as-IsDecoded notice_topic t payload h = rw h (refl, refl, refl, refl)
  decode_as-IsDecoded other_topic t payload (c, e, n) = rw (c, n) (refl, refl, refl, refl)

  -- A message that decode makes names its topic as its type, and of the typed fields exactly that of the
  -- topic is populated, if its topic has one; the notice is the payload just on the notice topic, and
  -- the raw payload is there just on the topics without a type. Nothing comes only of the echo topic,
  -- and an error only of a topic with a type.
  pub decode-IsDecoded :
      (t : String) (payload : Bytes) → IsDecoded t payload (decode parser u t payload)
  unfolding decode
  decode-IsDecoded t payload =
      decode_as-IsDecoded (topic_of t) t payload (topic_of-Reads (topic_of t) t refl)
