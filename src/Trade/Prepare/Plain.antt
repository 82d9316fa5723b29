-- ===== src/Trade/Prepare/Plain.antt =====
-- A plain equity order needs little (trade/orders.go): its symbol, side, type and quantity, and a limit
-- price for a limit order. prepare supplies the rest.
use webull.Common.{
  String, ◌≡◌, refl, ◌∙◌, ◌≢◌, ◌⊎◌, inl, inr, Bool, true, false, not, ◌&&◌, List, [], ◌∷◌, ◌++◌,
  arith, ◌==◌, eq_iff, if◌then◌else◌,
}
use webull.Trade.Enums.{
  OrderType, market, limit, stop_loss, stop_loss_limit, trailing_stop_loss, limit_on_open,
  TimeInForce, day, gtd, EntrustType, by_quantity, by_amount, InstrumentType, instrument_equity,
  instrument_option,
}
use webull.Trade.Decimal.{DecimalOps, clear-valid}
use webull.Trade.Order.{Order}
use webull.Trade.Assets.{
  Check, report, report_iff, known_sides, known_types, known_tifs, known_entrust, asset_rules,
  excluded, leg_scale_checks, over_scale, rule_checks, checks_of_rule, validate_asset,
}
use webull.Trade.Assets.Rules.{Passes}
use webull.Trade.Prepare.{
  default_to, valid, bad_id_length, fill_kinds, fill_session, clear_unset, basic_checks,
  fill_option, option_checks, fill, checks, with_id, check_filled, prepare_named, prepare,
}

-- The caller set what a plain equity order needs, and left alone what the defaults decide.
pub record IsPlain {D : Type 0} (o : Order D) : Type 0 where
  pub symbol : o.symbol ≢ ""
  pub side : o.side ≢ ""
  pub order_type : (o.order_type ≡ market) ⊎ (o.order_type ≡ limit)
  pub priced : o.order_type ≡ limit → o.limit_price.valid ≡ true
  pub quantity : o.quantity.valid ≡ true
  pub instrument_unset : o.instrument_type ≡ ""
  pub combo_unset : o.combo_type ≡ ""
  pub entrust_unset : o.entrust_type ≡ ""
  pub tif_unset : o.time_in_force ≡ ""
  pub no_outcome : o.event_outcome ≡ ""
  pub no_legs : o.legs ≡ []

simple_type :
    (t : OrderType)
    → (t ≡ market) ⊎ (t ≡ limit)
    → (t == "" ≡ false)
      × (t == limit_on_open ≡ false)
      × (t == stop_loss ≡ false)
      × (t == stop_loss_limit ≡ false)
      × (t == trailing_stop_loss ≡ false)
simple_type t (inl e) = rw e (refl, refl, refl, refl, refl)
simple_type t (inr e) = rw e (refl, refl, refl, refl, refl)

excluded_self : (known : List String) (v : String) → excluded known known v ≡ false
unfolding excluded
excluded_self known v = ground arith

not_gtd : (v : TimeInForce) → v ≡ day → v == gtd ≡ false
not_gtd v e = rw e

not_amount : (v : EntrustType) → v ≡ by_quantity → v == by_amount ≡ false
not_amount v e = rw e

not_option : (v : InstrumentType) → v ≡ instrument_equity → v == instrument_option ≡ false
not_option v e = rw e

Passes-join : (xs ys : List Check) → Passes xs → Passes ys → Passes (xs ++ ys)
Passes-join [] ys h k = k
Passes-join (x ∷ xs) ys h k = (h.0, Passes-join xs ys h.1 k)

module _ {D : Type 0} (ops : DecimalOps D) (o : Order D) where
  basic_checks-pass :
      o.symbol ≢ ""
      → o.side ≢ ""
      → (o.order_type ≡ market) ⊎ (o.order_type ≡ limit)
      → (o.order_type ≡ limit → o.limit_price.valid ≡ true)
      → o.quantity.valid ≡ true
      → o.entrust_type ≡ by_quantity
      → o.time_in_force ≡ day
      → Passes (basic_checks ops o)
  unfolding basic_checks
  basic_checks-pass s d t p q e f = ground (
    arith,
    eq_iff o.symbol "",
    eq_iff o.side "",
    eq_iff o.order_type limit,
    simple_type o.order_type t,
    not_gtd o.time_in_force f,
    not_amount o.entrust_type e,
  )

  equity_checks-pass :
      o.instrument_type ≡ instrument_equity
      → o.event_outcome ≡ ""
      → o.legs ≡ []
      → Passes (validate_asset ops o)
  unfolding validate_asset asset_rules checks_of_rule rule_checks over_scale leg_scale_checks
  equity_checks-pass i e l =
      rw (i, e, l)
        (
          excluded_self known_sides o.side,
          (
            excluded_self known_types o.order_type,
            (
              excluded_self known_tifs o.time_in_force,
              (
                excluded_self known_entrust o.entrust_type,
                (refl, (refl, (refl, (ground arith, tt)))),
              ),
            ),
          ),
        )

  no_option_checks :
      o.instrument_type ≡ instrument_equity → option_checks ops (fill_option ops o) ≡ []
  unfolding option_checks fill_option
  no_option_checks e = rw (not_option o.instrument_type e)

no_total : (b c : Bool) → c ≡ true → (if b && not c then by_amount else by_quantity) ≡ by_quantity
no_total b c e = rw e (ground arith)

module _ {D : Type 0} (ops : DecimalOps D) where
  all_checks-pass : (o : Order D) → IsPlain o → report (checks ops (fill ops o)) ≡ []
  unfolding checks fill clear_unset fill_session fill_kinds
  all_checks-pass o p =
      let f : Order D = fill ops o in
      let kind : f.instrument_type ≡ instrument_equity = rw (p.instrument_unset, p.no_legs) refl in
      let entrust : f.entrust_type ≡ by_quantity =
        rw p.entrust_unset (no_total o.total_cash_amount.valid o.quantity.valid p.quantity) in
      let tif : f.time_in_force ≡ day = rw p.tif_unset refl in
      (report_iff _).1 (
        Passes-join (basic_checks ops f) _
          (basic_checks-pass ops f p.symbol p.side p.order_type
            (λ e. clear-valid ops o.limit_price ∙ p.priced e)
            (clear-valid ops o.quantity ∙ p.quantity) entrust tif)
          (Passes-join (validate_asset ops f) _
            (equity_checks-pass ops f kind p.no_outcome p.no_legs)
            (rw (no_option_checks ops f kind) tt)))

  -- A plain equity order is accepted, whatever its other fields hold: with a symbol, a side, type MARKET
  -- or LIMIT (priced), a quantity, no legs or outcome and the defaulted fields unset, prepare finds no
  -- problem, if the identifier of the caller, or else the fresh one, has 10 to 40 bytes.
  pub prepare-IsPlain :
      (fresh : String) (o : Order D)
      → IsPlain o
      → bad_id_length (default_to fresh o.client_order_id) ≡ false
      → (prepare ops fresh o).1 ≡ valid
  unfolding prepare prepare_named check_filled with_id
  prepare-IsPlain fresh o p h =
      let named : Order D = with_id ops fresh o in
      let q : IsPlain named = record {
        symbol = p.symbol;
        side = p.side;
        order_type = p.order_type;
        priced = p.priced;
        quantity = p.quantity;
        instrument_unset = p.instrument_unset;
        combo_unset = p.combo_unset;
        entrust_unset = p.entrust_unset;
        tif_unset = p.tif_unset;
        no_outcome = p.no_outcome;
        no_legs = p.no_legs;
      } in
      rw h (rw (all_checks-pass named q) refl)
