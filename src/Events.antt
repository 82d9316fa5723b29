-- ===== src/Events.antt =====
-- The trade event stream: events/events.go and the errors of events/client.go. Times are in
-- milliseconds since the epoch, 0 for none; the decoders of encoding/json are parameters.
pub mod Stream
pub mod Closing
pub mod Payloads
pub mod Requests
mod Samples
use webull.Common.{
  ℕ, zero, String, Bool, true, false, not, ◌&&◌, ◌||◌, Option, none, some, List, [], ◌∷◌, beq,
  if◌then◌else◌, codes,
}
use webull.Common.Int.{ℤ, pos}
use webull.Errors.{
  Error, Result, is_error, auth_failed, connection_limit, canceled, deadline_exceeded, eof,
  sentinel, wrap, ok, err,
}
use webull.Transport.Url.{Bytes}
use webull.Trade.Decimal.{NullDecimal}
use webull.Trade.Client.{order}
use webull.Trade.Combo.{kind}

-- Order and position notifications as they are decoded.
pub record OrderEvent (D T : Type 0) : Type 0 where
  pub request_id : String
  pub account_id : String
  pub client_order_id : String
  pub order_id : String
  pub instrument_id : String
  pub symbol : String
  pub category : String
  pub status : String
  pub scene : String
  pub side : String
  pub order_type : String
  pub quantity : NullDecimal D
  pub filled_quantity : NullDecimal D
  pub filled_price : NullDecimal D
  pub filled_time : T

pub record PositionEvent (D : Type 0) : Type 0 where
  pub event_name : String
  pub yes_condition : String
  pub settle_result : String
  pub settle_side : String
  pub quantity : NullDecimal D
  pub cost : NullDecimal D
  pub settle_amount : NullDecimal D

abbrev pub kind_order : ℕ
kind_order = 1024

abbrev pub kind_position : ℕ
kind_position = 1028

abbrev pub kind_option : ℕ
kind_option = 1032

pub record Event (D T : Type 0) : Type 0 where
  pub kind : ℕ
  pub order : Option (OrderEvent D T)
  pub position : Option (PositionEvent D)
  pub payload : Bytes
  pub request_id : String
  pub time : Option ℤ

-- The event types of the protocol that are no business events.
abbrev pub subscribe_success : ℕ
subscribe_success = 0

abbrev pub ping : ℕ
ping = 1

abbrev pub auth_error : ℕ
auth_error = 2

abbrev pub num_of_conn_exceed : ℕ
num_of_conn_exceed = 3

abbrev pub subscribe_expired : ℕ
subscribe_expired = 4

-- eventspb.SubscribeResponse
pub record StreamResponse : Type 0 where
  pub event_type : ℕ
  pub content_type : String
  pub payload : Bytes
  pub request_id : String
  pub timestamp : ℤ

-- json.Unmarshal for the two families that are decoded.
pub record EventCodec (D T : Type 0) : Type 0 where
  pub read_order : Bytes → Result (OrderEvent D T)
  pub read_position : Bytes → Result (PositionEvent D)

abbrev has_prefix_codes : List ℕ → List ℕ → Bool
has_prefix_codes s [] = true
has_prefix_codes [] (c ∷ cs) = false
has_prefix_codes (d ∷ ds) (c ∷ cs) = beq d c && has_prefix_codes ds cs

-- strings.HasPrefix
unfoldable pub has_prefix : String → String → Bool
has_prefix s prefix = has_prefix_codes (codes s) (codes prefix)

abbrev pub json_content_type : String
json_content_type = "application/json"

abbrev time_of : ℤ → Option ℤ
time_of (pos zero) = none
time_of ts = some ts

abbrev pub if_ok {ℓ} : {A : Type ℓ} → Result A → Option A
if_ok (ok a) = some a
if_ok (err e) = none

module _ {D T : Type 0} (codec : EventCodec D T) where
  abbrev bare : ℕ → Bytes → String → ℤ → Event D T
  bare kind payload request_id ts = record {
    kind = kind;
    order = none;
    position = none;
    payload = payload;
    request_id = request_id;
    time = time_of ts;
  }

  -- decodeEvent
  unfoldable pub decode_event : ℕ → String → Bytes → String → ℤ → Event D T
  decode_event kind content_type payload request_id ts =
      let ev = bare kind payload request_id ts in
      if not (has_prefix content_type json_content_type)
      then ev
      else if beq kind kind_order
      then record ev { order = if_ok (codec.read_order payload) }
      else if beq kind kind_position
      then record ev { position = if_ok (codec.read_position payload) }
      else ev

  -- The event that Recv makes of a response.
  abbrev pub event_of : StreamResponse → Event D T
  event_of r = decode_event r.event_type r.content_type r.payload r.request_id r.timestamp

-- The gRPC status codes that the code tells apart.
pub data Code : Type 0 where
  unavailable internal unknown other_code : Code

-- An error of a stream: its tree, and its gRPC status if one is in the tree.
pub record StreamError : Type 0 where
  pub error : Error
  pub status : Option Code

-- fmt.Errorf("…%w", err) keeps the status.
abbrev pub wrap_status : String → StreamError → StreamError
wrap_status s e = record e { error = wrap s e.error }

-- An error that carries no status.
abbrev pub plain_error : Error → StreamError
plain_error e = record { error = e; status = none }

-- controlError
unfoldable pub control_error : StreamResponse → Option StreamError
control_error r =
    if beq r.event_type auth_error
    then some (plain_error (wrap "payload" (sentinel auth_failed)))
    else if beq r.event_type num_of_conn_exceed
    then some (plain_error (wrap "payload" (sentinel connection_limit)))
    else none

-- status.Code, which is Unknown for an error without a status.
abbrev retryable_status : Option Code → Bool
retryable_status none = false
retryable_status (some unavailable) = true
retryable_status (some internal) = true
retryable_status (some unknown) = true
retryable_status (some other_code) = false

-- retryable
unfoldable pub retryable : StreamError → Bool
retryable e = is_error e.error eof || retryable_status e.status

-- isTerminal
unfoldable pub is_terminal : StreamError → Bool
is_terminal e =
    is_error e.error auth_failed
    || is_error e.error connection_limit
    || is_error e.error canceled
    || is_error e.error deadline_exceeded
    || not (retryable e)
