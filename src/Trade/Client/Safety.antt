-- ===== src/Trade/Client/Safety.antt =====
-- How many requests the order operations send (trade/orders.go).
use webull.Common.{◌+◌, ◌≤◌, String, refl, Option, some, arith}
use webull.Errors.{Result, ok, err}
use webull.Transport.Method.{is_idempotent}
use webull.Transport.Url.{Bytes}
use webull.Transport.Http.{Net}
use webull.Transport.Attempt.{authorize}
use webull.Transport.Doer.{post}
use webull.Transport.Doer.Safety.{IsGuarded, sent_count, do_request-sent_once}
use webull.Trade.Order.{Order}
use webull.Trade.Messages.{Body}
use webull.Trade.Client.{Wire, Client, prepared, send, place_prepared, place_order}

module _ {D T : Type 0} (w : Wire D T) (c : Client) (net : Net) (guarded : IsGuarded c.doer)
    (grows : sent_count net ≤ sent_count (authorize c.doer net).1) where
  -- One call of post sends at most one request, beside those of the authorizer.
  pub send-sent_once {ℓ} :
      {A : Type ℓ} (path : String) (body : Body D) (read : Bytes → Result A)
      → sent_count (send w c path body read net).1 ≤ sent_count (authorize c.doer net).1 + 1
  unfolding send post is_idempotent
  send-sent_once path body read =
      do_request-sent_once w.marshal c.doer w.env _ (some read) net guarded grows refl

  place_prepared-sent_once :
      (account : String) (r : Result (Order D))
      → sent_count (place_prepared w c account r net).1 ≤ sent_count (authorize c.doer net).1 + 1
  unfolding place_prepared
  place_prepared-sent_once account (err e) = omega arith
  place_prepared-sent_once account (ok o) = send-sent_once _ _ _

  -- A call of PlaceOrder, on a client of NewHTTPClient, sends at most one request, those for redirects
  -- included, whatever the order, the retry policy and the answers of the network, beside those that the
  -- authorizer sends (which takes none back).
  pub place_order-sent_once :
      (fresh account : String) (o : Option (Order D))
      → sent_count (place_order w c fresh account o net).1 ≤ sent_count (authorize c.doer net).1 + 1
  unfolding place_order
  place_order-sent_once fresh account o = place_prepared-sent_once account (prepared w fresh o)
