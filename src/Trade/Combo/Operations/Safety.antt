-- ===== src/Trade/Combo/Operations/Safety.antt =====
-- How many requests the group operations send (trade/combos.go).
use webull.Common.{ℕ, ◌+◌, ◌≤◌, String, List, arith}
use webull.Errors.{Result, ok, err}
use webull.Transport.Http.{Net}
use webull.Transport.Attempt.{authorize}
use webull.Transport.Doer.Safety.{IsGuarded, sent_count}
use webull.Trade.Order.{Order}
use webull.Trade.Prepare.{default_to}
use webull.Trade.Client.{Wire, Client}
use webull.Trade.Combo.{Combo}
use webull.Trade.Combo.Prepare.{prepare_combo}
use webull.Trade.Client.Safety.{send-sent_once}
use webull.Trade.Combo.Operations.{place_group, place_combo}

module _ {D T : Type 0} (w : Wire D T) (c : Client) (net : Net) (guarded : IsGuarded c.doer)
    (grows : sent_count net ≤ sent_count (authorize c.doer net).1) where
  place_group-sent_once :
      (account id : String) (r : Result (List (Order D)))
      → sent_count (place_group w c account id r net).1 ≤ sent_count (authorize c.doer net).1 + 1
  unfolding place_group
  place_group-sent_once account id (err e) = omega arith
  place_group-sent_once account id (ok os) = send-sent_once w c net guarded grows _ _ _

  -- A call of PlaceCombo, on a client of NewHTTPClient, sends at most one request, whatever the group, the retry policy and the answers
  -- of the network, beside those that the authorizer sends (which takes none back).
  pub place_combo-sent_once :
      (fresh : ℕ → String) (group account : String) (combo : Combo D)
      → sent_count (place_combo w c fresh group account combo net).1
        ≤ sent_count (authorize c.doer net).1 + 1
  unfolding place_combo
  place_combo-sent_once fresh group account combo =
      place_group-sent_once account (default_to group combo.client_combo_order_id)
        (prepare_combo w fresh group combo)
