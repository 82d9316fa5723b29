-- ===== src/Trade/Client/Batch.antt =====
-- Client.PlaceOrders: trade/orders.go. The orders of a batch are prepared one after another; the first
-- that fails ends the call before anything is sent.
pub mod Sound
use webull.Common.{
  ℕ, suc, String, not, ◌&&◌, Option, none, some, List, [], ◌∷◌, ◌==◌, if◌then◌else◌,
}
use webull.Common.Int.{pos}
use webull.Errors.{Result, invalid_order, sentinel, wrap, ok, err}
use webull.Transport.Http.{Net}
use webull.Trade.Enums.{short, market, limit, day, normal, by_quantity, instrument_equity}
use webull.Trade.Order.{Order}
use webull.Trade.Prepare.{for_placement}
use webull.Trade.Messages.{BatchResult, batch_envelope}
use webull.Trade.Client.{Wire, Client, classified, received, prepared, send}

-- The first case of the switch that a prepared order falls under, if any.
unfoldable pub batch_problem : {D : Type 0} → Order D → Option String
batch_problem o =
    if not (o.instrument_type == instrument_equity)
    then some "batch orders must be equities"
    else if not (o.combo_type == normal)
    then some "batch orders must be NORMAL combo"
    else if not (o.entrust_type == by_quantity)
    then some "batch orders must be by quantity"
    else if not (o.order_type == market) && not (o.order_type == limit)
    then some "batch orders must be MARKET or LIMIT"
    else if not (o.time_in_force == day)
    then some "batch orders must be DAY"
    else if o.side == short
    then some "batch orders cannot be SHORT"
    else none

abbrev pub zero_batch : BatchResult
zero_batch = record { total = pos 0; success = pos 0; failed = pos 0; orders = [] }

module _ {D T : Type 0} (w : Wire D T) where
  -- One order of the loop.
  unfoldable pub admit : Result (Order D) → Result (Order D)
  admit (err e) = err (wrap "order" e)
  admit (ok o) = elim (batch_problem o) [
    | none ↦ ok (for_placement w.ops o)
    | some s ↦ err (wrap s (sentinel invalid_order))
  ]

  abbrev cons_result : Result (Order D) → Result (List (Order D)) → Result (List (Order D))
  cons_result (err e) r = err e
  cons_result (ok o) (err e) = err e
  cons_result (ok o) (ok os) = ok (o ∷ os)

  -- The loop: `fresh k` is the identifier drawn for the order numbered `k`.
  unfoldable pub collect : (ℕ → String) → ℕ → List (Option (Order D)) → Result (List (Order D))
  collect fresh k [] = ok []
  collect fresh k (o ∷ os) = cons_result (admit (prepared w (fresh k) o)) (collect fresh (suc k) os)

  unfoldable pub send_batch :
      Client → String → Result (List (Order D)) → Net → Result BatchResult × Net
  send_batch c account (err e) net = (err e, net)
  send_batch c account (ok batch) net =
      let (r, n) =
        send w c "/trading/orders/batch-place" (batch_envelope account batch) w.read_batch net in
      (classified (received zero_batch r), n)

  -- Client.PlaceOrders
  unfoldable pub place_orders :
      Client → (ℕ → String) → String → List (Option (Order D)) → Net → Result BatchResult × Net
  place_orders c fresh account [] net = (err (wrap "no orders" (sentinel invalid_order)), net)
  place_orders c fresh account (o ∷ os) net = send_batch c account (collect fresh 0 (o ∷ os)) net
