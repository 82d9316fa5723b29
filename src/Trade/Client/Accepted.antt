-- ===== src/Trade/Client/Accepted.antt =====
-- An order that `prepared` passes on is ready to send (trade/orders.go).
use webull.Common.{String, ◌≡◌, refl, sym, Option, none, some}
use webull.Errors.{ok_inj, ok, err}
use webull.Trade.Order.{Order}
use webull.Trade.Prepare.{Verdict, verdict_error, prepare, valid, nil_order, id_length, invalid}
use webull.Trade.Prepare.Sound.{IsReady, prepare-IsReady}
use webull.Trade.Client.{Wire, prepared}

module _ {D T : Type 0} (w : Wire D T) where
  -- What prepare accepts as `ok` is ready.
  accepted :
      (v : Verdict) (p o : Order D)
      → (elim (verdict_error v) [ none ↦ ok p | some e ↦ err e ]) ≡ ok o
      → (v ≡ valid) × (p ≡ o)
  unfolding verdict_error
  accepted valid p o h = (refl, ok_inj h)
  accepted nil_order p o h = cc
  accepted (id_length n) p o h = cc
  accepted (invalid ps) p o h = cc

  pub prepared-IsReady :
      (fresh : String) (x : Option (Order D)) (o : Order D)
      → prepared w fresh x ≡ ok o
      → IsReady w.ops o
  unfolding prepared
  prepared-IsReady fresh none o h = cc
  prepared-IsReady fresh (some x) o h =
      let (good, same) = accepted (prepare w.ops fresh x).1 (prepare w.ops fresh x).0 o h in
      rw (sym same) (prepare-IsReady w.ops fresh x good)
