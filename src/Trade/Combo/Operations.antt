-- ===== src/Trade/Combo/Operations.antt =====
-- PreviewCombo, PlaceCombo and CancelCombo: trade/combos.go.
pub mod Safety
pub mod Cancel
use webull.Common.{
  ℕ, String, Bool, true, false, Option, none, some, List, [], ◌∷◌, ◌++◌, map, if◌then◌else◌,
  is_empty,
}
use webull.Errors.{Error, Result, has_code, invalid_order, sentinel, wrap, join, ok, err}
use webull.Transport.Http.{Net}
use webull.Trade.Order.{Order}
use webull.Trade.Prepare.{default_to, for_placement}
use webull.Trade.Messages.{OrderReceipt, zero_receipt, OrderPreview, Body, combo_envelope}
use webull.Trade.Client.{Wire, Client, classified, received, send, cancel_order}
use webull.Trade.Combo.{Combo}
use webull.Trade.Combo.Prepare.{prepare_combo}

module _ {D T : Type 0} (w : Wire D T) where
  place_orders_of : Bool → List (Order D) → List (Order D)
  place_orders_of true os = map (for_placement w.ops) os
  place_orders_of false os = os

  -- Combo.envelope; `id` is the group's identifier after prepare.
  unfoldable pub envelope : String → String → Bool → List (Order D) → Body D
  unfolding place_orders_of
  envelope account id placing os = combo_envelope account id (place_orders_of placing os)

  abbrev zero_combo_preview : OrderPreview D
  zero_combo_preview = record {
    estimated_cost = w.ops.zero_value;
    estimated_transaction_fee = w.ops.zero_value;
    currency = "";
  }

  unfoldable pub preview_group :
      Client → String → String → Result (List (Order D)) → Net → Result (OrderPreview D) × Net
  preview_group c account id (err e) net = (err e, net)
  preview_group c account id (ok os) net =
      let (r, n) =
        send w c "/trading/orders/preview" (envelope account id false os) w.read_preview net in
      (received zero_combo_preview r, n)

  -- Client.PreviewCombo
  unfoldable pub preview_combo :
      Client
      → (fresh : ℕ → String) → (group : String) → String
      → Combo D
      → Net
      → Result (OrderPreview D) × Net
  preview_combo c fresh group account combo net =
      preview_group c account (default_to group combo.client_combo_order_id)
        (prepare_combo w fresh group combo) net

  unfoldable pub place_group :
      Client → String → String → Result (List (Order D)) → Net → Result OrderReceipt × Net
  place_group c account id (err e) net = (err e, net)
  place_group c account id (ok os) net =
      let (r, n) =
        send w c "/trading/orders/place" (envelope account id true os) w.read_receipt net in
      (classified (received zero_receipt r), n)

  -- Client.PlaceCombo
  unfoldable pub place_combo :
      Client
      → (fresh : ℕ → String) → (group : String) → String
      → Combo D
      → Net
      → Result OrderReceipt × Net
  place_combo c fresh group account combo net =
      place_group c account (default_to group combo.client_combo_order_id)
        (prepare_combo w fresh group combo) net

  -- alreadyDone
  unfoldable pub already_done : Error → Bool
  already_done e = has_code e ("OPENAPI_ORDER_NOT_FOUND" ∷ "OPENAPI_ORDER_CAN_NOT_BE_CANCEL" ∷ [])

  -- The errors that the loop keeps of one cancellation.
  unfoldable pub kept : Result OrderReceipt → List Error
  kept (ok r) = []
  kept (err e) = if already_done e then [] else wrap "order" e ∷ []

  -- The loop over the orders; a nil order is passed over.
  unfoldable pub cancel_each : Client → String → List (Option (Order D)) → Net → List Error × Net
  cancel_each c account [] net = ([], net)
  cancel_each c account (none ∷ os) net = cancel_each c account os net
  cancel_each c account (some o ∷ os) net =
      let (r, n) = cancel_order w c account o.client_order_id net in
      let (es, n') = cancel_each c account os n in (kept r ++ es, n')

  -- errors.Join
  unfoldable pub join_errors : List Error → Option Error
  join_errors [] = none
  join_errors (e ∷ []) = some e
  join_errors (e ∷ f ∷ es) = elim (join_errors (f ∷ es)) [
    | none ↦ some e
    | some g ↦ some (join e g)
  ]

  -- Client.CancelCombo; `none` is the nil error.
  unfoldable pub cancel_combo : Client → String → Combo D → Net → Option Error × Net
  cancel_combo c account combo net =
      if is_empty combo.orders
      then (some (wrap "empty combo" (sentinel invalid_order)), net)
      else let (es, n) = cancel_each c account combo.orders net in (join_errors es, n)
