-- ===== src/Trade/Prepare.antt =====
-- Order.prepare: trade/orders.go. The defaults that it fills in, the problems that it reports, and the
-- two together. An identifier from the random source is an argument.
pub mod Sound
pub mod Plain
use webull.Common.{
  ℕ, suc, String, len, Bool, not, ◌&&◌, ◌||◌, Option, none, some, List, [], ◌∷◌, ◌++◌, map, ◌==◌,
  ltb, beq, if◌then◌else◌, length, is_empty,
}
use webull.Errors.{Error, invalid_order, sentinel, wrap}
use webull.Trade.Enums.{
  market, limit, stop_loss, stop_loss_limit, trailing_stop_loss, limit_on_open, day, gtd, normal,
  EntrustType, by_quantity, by_amount, session_core, InstrumentType, instrument_equity,
  instrument_option, OptionStrategy, strategy_single,
}
use webull.Trade.Decimal.{DecimalOps, absent, clear}
use webull.Trade.Order.{OrderLeg, Order}
use webull.Trade.Assets.{
  Problem, Check, report, validate_asset, symbol_required, side_required, type_required,
  limit_price_required, stop_price_required, limit_and_stop_required, trailing_required,
  expire_date_required, quantity_required, cash_amount_required, leg_required, strategy_required,
  single_takes_one_leg, two_legs_required, multi_leg_not_normal, option_leg_incomplete,
  leg_symbol_required, stock_leg_quantity_required, leg_kind,
}

abbrev pub client_order_id_min : ℕ
client_order_id_min = 10

abbrev pub client_order_id_max : ℕ
client_order_id_max = 40

-- if v == "" { v = d }
abbrev pub default_to : String → String → String
default_to d v = if v == "" then d else v

-- The result of the checks. `id_length` has the length of a bad identifier.
pub data Verdict : Type 0 where
  valid : Verdict
  nil_order : Verdict
  id_length : ℕ → Verdict
  invalid : List Problem → Verdict

-- The error that a verdict stands for.
unfoldable pub verdict_error : Verdict → Option Error
verdict_error valid = none
verdict_error nil_order = some (wrap "order is nil" (sentinel invalid_order))
verdict_error (id_length n) =
    some (wrap "ClientOrderID must be 10 to 40 characters" (sentinel invalid_order))
verdict_error (invalid ps) = some (wrap "problems" (sentinel invalid_order))

abbrev pub verdict_of : List Problem → Verdict
verdict_of [] = valid
verdict_of (p ∷ ps) = invalid (p ∷ ps)

unfoldable pub bad_id_length : String → Bool
bad_id_length id = ltb (len id) client_order_id_min || ltb client_order_id_max (len id)

module _ {D : Type 0} (ops : DecimalOps D) where
  abbrev default_instrument : Order D → InstrumentType
  default_instrument o = if is_empty o.legs then instrument_equity else instrument_option

  abbrev default_entrust : Order D → EntrustType
  default_entrust o =
      if o.total_cash_amount.valid && not o.quantity.valid then by_amount else by_quantity

  unfoldable pub fill_kinds : Order D → Order D
  fill_kinds o = record o {
    instrument_type = default_to (default_instrument o) o.instrument_type;
    combo_type = default_to normal o.combo_type;
    entrust_type = default_to (default_entrust o) o.entrust_type;
    market = default_to "US" o.market;
    time_in_force = default_to day o.time_in_force;
  }

  unfoldable pub fill_session : Order D → Order D
  fill_session o = record o {
    trading_session =
        if o.trading_session == "" && o.instrument_type == instrument_equity
        then session_core
        else o.trading_session;
  }

  unfoldable pub clear_unset : Order D → Order D
  clear_unset o = record o {
    quantity = clear ops o.quantity;
    total_cash_amount = clear ops o.total_cash_amount;
    limit_price = clear ops o.limit_price;
    stop_price = clear ops o.stop_price;
    trailing_stop_step = clear ops o.trailing_stop_step;
    current_ask = clear ops o.current_ask;
    current_bid = clear ops o.current_bid;
    target_vol_percent = clear ops o.target_vol_percent;
    max_target_percent = clear ops o.max_target_percent;
  }

  -- The checks before those of the asset class. The cases of the switch on the order type are the
  -- four from `limit_price_required` on.
  unfoldable pub basic_checks : Order D → List Check
  basic_checks o =
      (o.symbol == "", symbol_required)
      ∷ (o.side == "", side_required)
      ∷ (o.order_type == "", type_required)
      ∷ (
        (o.order_type == limit || o.order_type == limit_on_open) && not o.limit_price.valid,
        limit_price_required o.order_type,
      )
      ∷ (o.order_type == stop_loss && not o.stop_price.valid, stop_price_required)
      ∷ (
        o.order_type == stop_loss_limit && (not o.limit_price.valid || not o.stop_price.valid),
        limit_and_stop_required,
      )
      ∷ (
        o.order_type == trailing_stop_loss
            && (o.trailing_type == "" || not o.trailing_stop_step.valid),
        trailing_required,
      )
      ∷ (o.time_in_force == gtd && o.expire_date == "", expire_date_required)
      ∷ (o.entrust_type == by_quantity && not o.quantity.valid, quantity_required)
      ∷ (o.entrust_type == by_amount && not o.total_cash_amount.valid, cash_amount_required)
      ∷ []

  abbrev is_multi_leg : OptionStrategy → Bool
  is_multi_leg s = not (s == "") && not (s == strategy_single)

  -- The checks of an option order's strategy, after its default.
  unfoldable pub strategy_checks : Order D → List Check
  strategy_checks o =
      (is_empty o.legs, leg_required)
      ∷ (o.option_strategy == "" && ltb 1 (length o.legs), strategy_required)
      ∷ (o.option_strategy == strategy_single && not (beq (length o.legs) 1), single_takes_one_leg)
      ∷ (
        is_multi_leg o.option_strategy && ltb (length o.legs) 2,
        two_legs_required o.option_strategy,
      )
      ∷ (is_multi_leg o.option_strategy && not (o.combo_type == normal), multi_leg_not_normal)
      ∷ []

  abbrev default_strategy : Order D → OptionStrategy
  default_strategy o =
      if o.option_strategy == "" && beq (length o.legs) 1
      then strategy_single
      else o.option_strategy

  -- The defaults of a leg. An option leg is sized like the order; a stock leg never is.
  unfoldable pub leg_defaults : Order D → OrderLeg D → OrderLeg D
  leg_defaults o leg = record leg {
    market = default_to "US" leg.market;
    instrument_type = default_to instrument_option leg.instrument_type;
    side = default_to o.side leg.side;
    strike_price = clear ops leg.strike_price;
  }

  unfoldable pub leg_quantity : Order D → OrderLeg D → OrderLeg D
  leg_quantity o leg =
      if leg.instrument_type == instrument_option && not leg.quantity.valid
      then record leg { quantity = o.quantity }
      else leg

  unfoldable pub fill_leg : Order D → OrderLeg D → OrderLeg D
  unfolding leg_defaults leg_quantity
  fill_leg o leg = leg_quantity o (leg_defaults o leg)

  abbrev is_incomplete : OrderLeg D → Bool
  is_incomplete leg =
      leg.symbol == ""
      || not leg.strike_price.valid
      || leg.expire_date == ""
      || leg.option_type == ""

  -- The checks of the filled legs, by the switch on the leg's kind, from the leg numbered `i`.
  unfoldable pub leg_checks : ℕ → List (OrderLeg D) → List Check
  leg_checks i [] = []
  leg_checks i (leg ∷ legs) =
      (leg.instrument_type == instrument_option && is_incomplete leg, option_leg_incomplete i)
      ∷ (leg.instrument_type == instrument_equity && leg.symbol == "", leg_symbol_required i)
      ∷ (
        leg.instrument_type == instrument_equity && not leg.quantity.valid,
        stock_leg_quantity_required i,
      )
      ∷ (
        not (leg.instrument_type == instrument_option)
            && not (leg.instrument_type == instrument_equity),
        leg_kind i,
      )
      ∷ leg_checks (suc i) legs

  -- if o.InstrumentType == InstrumentOption { … }: what it changes.
  unfoldable pub fill_option : Order D → Order D
  fill_option o = record o {
    option_strategy =
        if o.instrument_type == instrument_option then default_strategy o else o.option_strategy;
    legs = if o.instrument_type == instrument_option then map (fill_leg o) o.legs else o.legs;
  }

  unfoldable pub option_checks : Order D → List Check
  option_checks o =
      if o.instrument_type == instrument_option
      then strategy_checks o ++ leg_checks 0 o.legs
      else []

  -- The order with its defaults, apart from those of options.
  unfoldable pub fill : Order D → Order D
  unfolding clear_unset fill_session fill_kinds
  fill o = clear_unset (fill_session (fill_kinds o))

  -- All checks, in order. Those of the asset class see the legs as the caller gave them.
  unfoldable pub checks : Order D → List Check
  checks o = basic_checks o ++ (validate_asset ops o ++ option_checks (fill_option o))

  unfoldable pub with_id : String → Order D → Order D
  with_id fresh o = record o { client_order_id = default_to fresh o.client_order_id }

  unfoldable pub check_filled : Order D → Order D × Verdict
  check_filled o = (fill_option o, verdict_of (report (checks o)))

  -- The rest of prepare, once there is an identifier.
  unfoldable pub prepare_named : Order D → Order D × Verdict
  prepare_named o =
      if bad_id_length o.client_order_id
      then (o, id_length (len o.client_order_id))
      else check_filled (fill o)

  -- Order.prepare on an order: the order as it leaves it, and the verdict.
  unfoldable pub prepare : String → Order D → Order D × Verdict
  prepare fresh o = prepare_named (with_id fresh o)

  -- forPlacement: a copy without the fields that only a preview takes.
  unfoldable pub for_placement : Order D → Order D
  for_placement o = record o { current_ask = absent ops; current_bid = absent ops }
