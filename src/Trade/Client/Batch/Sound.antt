-- ===== src/Trade/Client/Batch/Sound.antt =====
-- What a batch of orders satisfies before PlaceOrders sends it (trade/orders.go).
use webull.Common.{
  ℕ, suc, ◌≤◌, String, ◌≡◌, refl, sym, ap, ◌≢◌, ◌⊎◌, inl, inr, Option, none, some, List, [], ◌∷◌,
  arith, eq_iff, length, All,
}
use webull.Errors.{Error, Result, Result-cases, ok_inj, invalid_order, sentinel, wrap, ok, err}
use webull.Transport.Http.{Net}
use webull.Trade.Enums.{short, market, limit, day, normal, by_quantity, instrument_equity}
use webull.Trade.Decimal.{DecimalOps, absent}
use webull.Trade.Order.{Order}
use webull.Trade.Prepare.{for_placement}
use webull.Trade.Prepare.Sound.{IsOptionReady, IsReady}
use webull.Trade.Client.{Wire, Client, prepared}
use webull.Trade.Client.Batch.{batch_problem, admit, cons_result, collect, send_batch, place_orders}
use webull.Trade.Client.Accepted.{prepared-IsReady}

-- What Webull takes in a batch: a complete order that is an equity order on its own, sized by quantity,
-- MARKET or LIMIT, good for the day, not a short sale, and without the fields only a preview takes.
pub record IsBatchOrder {D : Type 0} (ops : DecimalOps D) (o : Order D) : Type 0 where
  pub ready : IsReady ops o
  pub equity : o.instrument_type ≡ instrument_equity
  pub alone : o.combo_type ≡ normal
  pub sized : o.entrust_type ≡ by_quantity
  pub simple : (o.order_type ≡ market) ⊎ (o.order_type ≡ limit)
  pub for_today : o.time_in_force ≡ day
  pub not_short : o.side ≢ short
  pub no_ask : o.current_ask ≡ absent ops
  pub no_bid : o.current_bid ≡ absent ops

module _ {D : Type 0} (ops : DecimalOps D) where
  for_placement-IsReady : (o : Order D) → IsReady ops o → IsReady ops (for_placement ops o)
  unfolding for_placement
  for_placement-IsReady o r = record {
    id_length = r.id_length;
    complete = r.complete;
    permitted = r.permitted;
    whole_legs = r.whole_legs;
    option = λ e.
        let s : IsOptionReady o = r.option e in
        record {
          has_strategy = s.has_strategy;
          single = s.single;
          some_leg = s.some_leg;
          alone = s.alone;
          legs = s.legs;
        };
  }

  batch_order :
      (o : Order D)
      → IsReady ops o
      → batch_problem o ≡ none
      → IsBatchOrder ops (for_placement ops o)
  unfolding for_placement batch_problem
  batch_order o r h = record {
    ready = for_placement-IsReady o r;
    equity = ground (arith, eq_iff o.instrument_type instrument_equity);
    alone = ground (arith, eq_iff o.combo_type normal);
    sized = ground (arith, eq_iff o.entrust_type by_quantity);
    simple = ground (arith, eq_iff o.order_type market, eq_iff o.order_type limit);
    for_today = ground (arith, eq_iff o.time_in_force day);
    not_short = ground (arith, eq_iff o.side short);
    no_ask = refl;
    no_bid = refl;
  }

module _ {D T : Type 0} (w : Wire D T) where
  admit-IsBatchOrder :
      (r : Result (Order D)) (b : Order D)
      → ((o : Order D) → r ≡ ok o → IsReady w.ops o)
      → admit w r ≡ ok b
      → IsBatchOrder w.ops b
  unfolding admit
  admit-IsBatchOrder (err e) b h k = cc
  admit-IsBatchOrder (ok o) b h k = settled (batch_problem o) refl k
    where
      settled :
          (p : Option String)
          → batch_problem o ≡ p
          → (elim p [
            | none ↦ ok (for_placement w.ops o)
            | some s ↦ err (wrap s (sentinel invalid_order))
          ])
            ≡ ok b
          → IsBatchOrder w.ops b
      settled none e q = rw (sym (ok_inj q)) (batch_order w.ops o (h o refl) e)
      settled (some s) e q = cc

  collect-All :
      (fresh : ℕ → String) (k : ℕ) (os : List (Option (Order D))) (bs : List (Order D))
      → collect w fresh k os ≡ ok bs
      → All (IsBatchOrder w.ops) bs × (length bs ≡ length os)
  unfolding collect
  collect-All fresh k [] bs h = rw (sym (ok_inj h)) (tt, refl)
  collect-All fresh k (o ∷ os) bs h =
      joined (admit w (prepared w (fresh k) o)) (collect w fresh (suc k) os)
        (λ b p. admit-IsBatchOrder _ b (prepared-IsReady w (fresh k) o) p)
        (λ cs q. collect-All fresh (suc k) os cs q) h
    where
      joined :
          (a : Result (Order D)) (r : Result (List (Order D)))
          → ((b : Order D) → a ≡ ok b → IsBatchOrder w.ops b)
          → ((cs : List (Order D))
              → r ≡ ok cs
              → All (IsBatchOrder w.ops) cs × (length cs ≡ length os))
          → cons_result w a r ≡ ok bs
          → All (IsBatchOrder w.ops) bs × (length bs ≡ length (o ∷ os))
      joined (err e) r p q s = cc
      joined (ok b) (err e) p q s = cc
      joined (ok b) (ok cs) p q s =
          let (rest, n) = q cs refl in rw (sym (ok_inj s)) ((p b refl, rest), ap suc n)

  -- PlaceOrders is all or nothing on the client's side: either it fails before anything is sent, or as
  -- many orders as were given, at least one, each a ready batch order, go out in the one call that
  -- follows.
  pub place_orders-all_or_nothing :
      (c : Client) (fresh : ℕ → String) (account : String) (os : List (Option (Order D)))
      (net : Net)
      → ((e : Error) × (place_orders w c fresh account os net ≡ (err e, net)))
        ⊎ ((bs : List (Order D)) × All (IsBatchOrder w.ops) bs
            × (length bs ≡ length os)
            × (1 ≤ length bs)
            × (place_orders w c fresh account os net ≡ send_batch w c account (ok bs) net))
  unfolding place_orders send_batch
  place_orders-all_or_nothing c fresh account [] net = inl (_, refl)
  place_orders-all_or_nothing c fresh account (o ∷ os) net =
      elim (Result-cases (collect w fresh 0 (o ∷ os))) [
        | inl (bs, e) ↦
            let (good, n) = collect-All fresh 0 (o ∷ os) bs e in
            inr (bs, good, n, omega (arith, n), ap (λ r. send_batch w c account r net) e)
        | inr (x, e) ↦ inl (x, rw e refl)
      ]
