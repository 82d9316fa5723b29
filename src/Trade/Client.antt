-- ===== src/Trade/Client.antt =====
-- The order operations of trade.Client (trade/orders.go): each prepares or checks its input, then makes
-- one call of the transport. A caller's *Order is an Option; what prepare writes back to it is
-- `written_back`. encoding/json and the environment are the `Wire` that the client has.
pub mod Safety
pub mod Accepted
pub mod Batch
pub mod Refusals
use webull.Common.{
  zero, String, Bool, true, false, not, ◌||◌, Option, none, some, List, [], ◌∷◌, ◌++◌, ◌==◌,
  if◌then◌else◌,
}
use webull.Common.Int.{ℤ, pos}
use webull.Common.Numerals.{itoa}
use webull.Errors.{
  Error, Result, has_code, invalid_order, duplicate_order, sentinel, wrap, join, ok, err,
}
use webull.Transport.Url.{Bytes, Values}
use webull.Transport.Http.{Env, Net}
use webull.Transport.Attempt.{Doer}
use webull.Transport.Doer.{get, post}
use webull.Trade.Decimal.{DecimalOps, clear}
use webull.Trade.Order.{Order}
use webull.Trade.Prepare.{verdict_error, prepare, for_placement}
use webull.Trade.Messages.{
  OrderReceipt, zero_receipt, OrderPreview, LegModification, OrderModification, OrderGroup,
  OrdersRequest, BatchResult, Body, order_envelope, modify_envelope, cancel_envelope,
}

-- The codecs of encoding/json, the decimals, and the zero values of `var out`.
pub record Wire (D T : Type 0) : Type 0 where
  pub ops : DecimalOps D
  pub env : Env
  pub marshal : Body D → Result Bytes
  pub read_receipt : Bytes → Result OrderReceipt
  pub read_preview : Bytes → Result (OrderPreview D)
  pub read_batch : Bytes → Result BatchResult
  pub read_group : Bytes → Result (OrderGroup D T)
  pub read_groups : Bytes → Result (List (OrderGroup D T))

pub record Client : Type 0 where
  pub doer : Doer
  pub host : String

abbrev pub duplicate_order_code : String
duplicate_order_code = "OPENAPI_TRADE_PLACE_ORDER_REPEAT"

-- classify: a reused ClientOrderID gets a name, and the error stays reachable.
unfoldable pub classify : Error → Error
classify e = if has_code e (duplicate_order_code ∷ []) then join (sentinel duplicate_order) e else e

abbrev pub classified {ℓ} : {A : Type ℓ} → Result A → Result A
classified (ok a) = ok a
classified (err e) = err (classify e)

-- var out A; err := …(&out): the zero value stays if nothing is decoded.
abbrev pub received {ℓ} : {A : Type ℓ} → A → Result (Option A) → Result A
received zero_value (err e) = err e
received zero_value (ok none) = ok zero_value
received zero_value (ok (some a)) = ok a

-- query.Params: parameters that are empty or zero are left out.
abbrev pub set_text : String → String → Values → Values
set_text key v q = if v == "" then q else q ++ ((key, v ∷ []) ∷ [])

abbrev is_zero : ℤ → Bool
is_zero (pos zero) = true
is_zero n = false

abbrev pub set_int : String → ℤ → Values → Values
set_int key n q = if is_zero n then q else q ++ ((key, itoa n ∷ []) ∷ [])

-- The dates of a request for past orders.
abbrev set_dates : Bool → OrdersRequest → Values → Values
set_dates false r q = q
set_dates true r q = set_text "end_date" r.end_date (set_text "start_date" r.start_date q)

-- OrdersRequest.params
unfoldable pub params : Bool → OrdersRequest → Values
params history r =
    set_text "last_client_order_id" r.last_client_order_id (
      set_int "page_size" r.page_size (set_dates history r (set_text "account_id" r.account_id [])))

module _ {D T : Type 0} (w : Wire D T) where
  -- err := order.prepare()
  unfoldable pub prepared : String → Option (Order D) → Result (Order D)
  prepared fresh none = err (wrap "order is nil" (sentinel invalid_order))
  prepared fresh (some o) =
      let (p, v) = prepare w.ops fresh o in elim (verdict_error v) [ none ↦ ok p | some e ↦ err e ]

  -- The caller's order after the call.
  abbrev pub written_back : String → Option (Order D) → Option (Order D)
  written_back fresh none = none
  written_back fresh (some o) = some (prepare w.ops fresh o).0

  -- Client.post
  unfoldable pub send {ℓ} :
      {A : Type ℓ} → Client → String → Body D → (Bytes → Result A) → Net → Result (Option A) × Net
  send c path body read net = post w.marshal c.doer w.env c.host path (some body) (some read) net

  -- Client.get
  unfoldable pub fetch {ℓ} :
      {A : Type ℓ} → Client → String → Values → (Bytes → Result A) → Net → Result (Option A) × Net
  fetch c path q read net = get w.marshal c.doer w.env c.host path q (some read) net

  zero_preview : OrderPreview D
  zero_preview = record {
    estimated_cost = w.ops.zero_value;
    estimated_transaction_fee = w.ops.zero_value;
    currency = "";
  }

  preview_prepared : Client → String → Result (Order D) → Net → Result (OrderPreview D) × Net
  unfolding zero_preview
  preview_prepared c account (err e) net = (err e, net)
  preview_prepared c account (ok o) net =
      let (r, n) =
        send c "/trading/orders/preview" (order_envelope account (o ∷ [])) w.read_preview net in
      (received zero_preview r, n)

  -- Client.PreviewOrder
  unfoldable pub preview_order :
      Client → String → String → Option (Order D) → Net → Result (OrderPreview D) × Net
  unfolding preview_prepared
  preview_order c fresh account o net = preview_prepared c account (prepared fresh o) net

  unfoldable pub place_prepared :
      Client → String → Result (Order D) → Net → Result OrderReceipt × Net
  place_prepared c account (err e) net = (err e, net)
  place_prepared c account (ok o) net =
      let (r, n) =
        send c "/trading/orders/place" (order_envelope account (for_placement w.ops o ∷ []))
          w.read_receipt net in
      (classified (received zero_receipt r), n)

  -- Client.PlaceOrder
  unfoldable pub place_order :
      Client → String → String → Option (Order D) → Net → Result OrderReceipt × Net
  place_order c fresh account o net = place_prepared c account (prepared fresh o) net

  -- The numbers that ReplaceOrder clears.
  unfoldable pub clear_modification : OrderModification D → OrderModification D
  clear_modification m = record m {
    quantity = clear w.ops m.quantity;
    limit_price = clear w.ops m.limit_price;
    stop_price = clear w.ops m.stop_price;
    trailing_stop_step = clear w.ops m.trailing_stop_step;
    target_vol_percent = clear w.ops m.target_vol_percent;
    max_target_percent = clear w.ops m.max_target_percent;
  }

  abbrev is_bad_leg : LegModification D → Bool
  is_bad_leg leg = leg.id == "" || not leg.quantity.valid

  unfoldable pub has_bad_leg : List (LegModification D) → Bool
  has_bad_leg [] = false
  has_bad_leg (leg ∷ legs) = is_bad_leg leg || has_bad_leg legs

  -- Client.ReplaceOrder
  unfoldable pub replace_order :
      Client → String → OrderModification D → Net → Result OrderReceipt × Net
  replace_order c account m net =
      if m.client_order_id == ""
      then (err (wrap "ClientOrderID is required" (sentinel invalid_order)), net)
      else if has_bad_leg m.legs
      then (err (wrap "leg needs ID and Quantity" (sentinel invalid_order)), net)
      else let (r, n) =
          send c "/trading/orders/replace" (modify_envelope account (clear_modification m ∷ []))
            w.read_receipt net in
        (received zero_receipt r, n)

  -- Client.CancelOrder
  unfoldable pub cancel_order : Client → String → String → Net → Result OrderReceipt × Net
  cancel_order c account id net =
      if id == ""
      then (err (wrap "clientOrderID is required" (sentinel invalid_order)), net)
      else let (r, n) =
          send c "/trading/orders/cancel" (cancel_envelope account id) w.read_receipt net in
        (received zero_receipt r, n)

  zero_group : OrderGroup D T
  zero_group = record { client_order_id = ""; combo_type = ""; combo_order_id = ""; orders = [] }

  -- Client.Order
  unfoldable pub order : Client → String → String → Net → Result (OrderGroup D T) × Net
  unfolding zero_group
  order c account id net =
      if id == ""
      then (err (wrap "clientOrderID is required" (sentinel invalid_order)), net)
      else let q = set_text "client_order_id" id (set_text "account_id" account []) in
        let (r, n) = fetch c "/trading/orders/get" q w.read_group net in (received zero_group r, n)

  -- Client.OpenOrders
  unfoldable pub open_orders : Client → OrdersRequest → Net → Result (List (OrderGroup D T)) × Net
  open_orders c r net =
      let (x, n) = fetch c "/trading/orders/open-orders/list" (params false r) w.read_groups net in
      (received [] x, n)

  -- Client.OrderHistory
  unfoldable pub order_history : Client → OrdersRequest → Net → Result (List (OrderGroup D T)) × Net
  order_history c r net =
      let (x, n) =
        fetch c "/trading/orders/historical-orders/list" (params true r) w.read_groups net in
      (received [] x, n)
