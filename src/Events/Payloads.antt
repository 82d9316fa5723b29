-- ===== src/Events/Payloads.antt =====
-- decodeEvent of events/client.go: what an event holds.
use webull.Common.{
  ℕ, String, ◌≡◌, refl, ◌↔◌, Bool, true, false, ◌&&◌, none, some, arith, beq, if◌then◌else◌,
}
use webull.Common.Int.{ℤ}
use webull.Errors.{Result, ok, err}
use webull.Transport.Url.{Bytes}
use webull.Events.{
  OrderEvent, PositionEvent, kind_order, kind_position, EventCodec, has_prefix, json_content_type,
  if_ok, decode_event,
}

guarded_some :
    {A : Type 0} (b c : Bool) (r : Result A) (a : A)
    → ((if b && c then if_ok r else none) ≡ some a) ↔ ((b ≡ true) × (c ≡ true) × (r ≡ ok a))
guarded_some true true (ok x) a = ((λ e. (refl, refl, cc)), (λ (p, q, e). cc))
guarded_some true true (err x) a = ((λ e. absurd (cc)), (λ (p, q, e). absurd (cc)))
guarded_some true false r a = ((λ e. absurd (cc)), (λ (p, q, e). absurd (cc)))
guarded_some false c r a = ((λ e. absurd (cc)), (λ (p, q, e). absurd (cc)))

module _ {D T : Type 0} (codec : EventCodec D T) where
  order_lem :
      (kind : ℕ) (content_type : String) (payload : Bytes) (id : String) (ts : ℤ)
      → (decode_event codec kind content_type payload id ts).order ≡ (
          if has_prefix content_type json_content_type && beq kind kind_order
          then if_ok (codec.read_order payload)
          else none)
  unfolding decode_event
  order_lem kind content_type payload id ts = ground arith

  position_lem :
      (kind : ℕ) (content_type : String) (payload : Bytes) (id : String) (ts : ℤ)
      → (decode_event codec kind content_type payload id ts).position ≡ (
          if has_prefix content_type json_content_type && beq kind kind_position
          then if_ok (codec.read_position payload)
          else none)
  unfolding decode_event
  position_lem kind content_type payload id ts = ground arith

  kept_lem :
      (kind : ℕ) (content_type : String) (payload : Bytes) (id : String) (ts : ℤ)
      → let ev = decode_event codec kind content_type payload id ts in
        (ev.kind ≡ kind) × (ev.payload ≡ payload) × (ev.request_id ≡ id)
  unfolding decode_event
  kept_lem kind content_type payload id ts = ground arith

  -- An event keeps the kind, the payload and the request id of its response, whatever the content; it
  -- holds an order notification just where the content is JSON, the kind is that of orders and
  -- json.Unmarshal reads that notification, and likewise a position notification.
  decode_event-fields :
      (kind : ℕ) (content_type : String) (payload : Bytes) (id : String) (ts : ℤ)
      → let ev = decode_event codec kind content_type payload id ts in
        ((ev.kind ≡ kind) × (ev.payload ≡ payload) × (ev.request_id ≡ id))
        × ((o : OrderEvent D T)
            → (ev.order ≡ some o) ↔ (
                (has_prefix content_type json_content_type ≡ true)
                × (beq kind kind_order ≡ true)
                × (codec.read_order payload ≡ ok o)))
        × ((p : PositionEvent D)
            → (ev.position ≡ some p) ↔ (
                (has_prefix content_type json_content_type ≡ true)
                × (beq kind kind_position ≡ true)
                × (codec.read_position payload ≡ ok p)))
  decode_event-fields kind content_type payload id ts = (
    kept_lem kind content_type payload id ts,
    (λ o. rw (order_lem kind content_type payload id ts) (guarded_some _ _ _ o)),
    (λ p. rw (position_lem kind content_type payload id ts) (guarded_some _ _ _ p)),
  )
