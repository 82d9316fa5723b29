-- ===== src/Trade/Assets.antt =====
-- What Webull permits for each asset class: trade/assets.go.
pub mod Rules
use webull.Common.{
  ℕ, suc, String, ◌≡◌, refl, ◌↔◌, Bool, true, false, not, ◌&&◌, ◌||◌, Option, none, some, List, [],
  ◌∷◌, ◌++◌, arith, ◌==◌, ltb, if◌then◌else◌, All, contains,
}
use webull.Common.Int.{ℤ, ltb_ℤ, leb_ℤ, pos, negsuc}
use webull.Trade.Enums.{
  Side, buy, sell, short, OrderType, market, limit, stop_loss, stop_loss_limit, trailing_stop_loss,
  market_on_open, market_on_close, limit_on_open, TimeInForce, day, gtc, ioc, gtd, fok, normal,
  EntrustType, by_quantity, by_amount, InstrumentType, instrument_equity, instrument_option,
  instrument_futures, instrument_crypto, instrument_event, OptionStrategy,
}
use webull.Trade.Decimal.{DecimalOps, NullDecimal, scale}
use webull.Trade.Order.{OrderLeg, Order}

-- A failed check of an order: the constructor stands for the message, with what it names.
pub data Problem : Type 0 where
  symbol_required side_required type_required : Problem
  limit_price_required : OrderType → Problem
  stop_price_required limit_and_stop_required trailing_required : Problem
  expire_date_required quantity_required cash_amount_required : Problem
  side_unsupported : InstrumentType → Side → Problem
  type_unsupported : InstrumentType → OrderType → Problem
  tif_unsupported : InstrumentType → TimeInForce → Problem
  entrust_unsupported : InstrumentType → EntrustType → Problem
  too_many_places : InstrumentType → Problem
  fractional_leg : ℕ → Problem
  outcome_required outcome_forbidden : Problem
  combo_unsupported : InstrumentType → Problem
  leg_required strategy_required single_takes_one_leg : Problem
  two_legs_required : OptionStrategy → Problem
  multi_leg_not_normal : Problem
  option_leg_incomplete leg_symbol_required stock_leg_quantity_required leg_kind : ℕ → Problem

-- if bad { problems = append(problems, …) }
abbrev pub Check : Type 0
Check = Bool × Problem

-- The problems of the checks that fail, in order.
unfoldable pub report : List Check → List Problem
report [] = []
report ((bad, p) ∷ cs) = if bad then p ∷ report cs else report cs

-- Nothing is reported exactly if no check fails.
pub report_iff : (cs : List Check) → (report cs ≡ []) ↔ All (λ c. c.0 ≡ false) cs
unfolding report
report_iff [] = ((λ h. tt), (λ h. refl))
report_iff ((bad, p) ∷ cs) = ground (arith, report_iff cs)

pub record AssetRule : Type 0 where
  pub sides : List Side
  pub order_types : List OrderType
  pub tifs : List TimeInForce
  pub entrust : List EntrustType
  pub max_scale : ℤ
  pub need_outcome : Bool
  pub combos : Bool

abbrev pub known_sides : List Side
known_sides = buy ∷ sell ∷ short ∷ []

abbrev pub known_types : List OrderType
known_types =
    market ∷ limit ∷ stop_loss ∷ stop_loss_limit ∷ trailing_stop_loss ∷ market_on_open
    ∷ market_on_close ∷ limit_on_open ∷ []

abbrev pub known_tifs : List TimeInForce
known_tifs = day ∷ gtc ∷ ioc ∷ gtd ∷ fok ∷ []

abbrev pub known_entrust : List EntrustType
known_entrust = by_quantity ∷ by_amount ∷ []

abbrev pub equity_rule : AssetRule
equity_rule = record {
  sides = known_sides;
  order_types = known_types;
  tifs = known_tifs;
  entrust = known_entrust;
  max_scale = negsuc 0;
  need_outcome = false;
  combos = true;
}

abbrev pub option_rule : AssetRule
option_rule = record {
  sides = buy ∷ sell ∷ short ∷ [];
  order_types = market ∷ limit ∷ stop_loss ∷ stop_loss_limit ∷ [];
  tifs = day ∷ gtc ∷ [];
  entrust = by_quantity ∷ [];
  max_scale = pos 0;
  need_outcome = false;
  combos = true;
}

abbrev pub futures_rule : AssetRule
futures_rule = record {
  sides = buy ∷ sell ∷ [];
  order_types = market ∷ limit ∷ stop_loss ∷ stop_loss_limit ∷ trailing_stop_loss ∷ [];
  tifs = day ∷ gtc ∷ [];
  entrust = by_quantity ∷ [];
  max_scale = pos 0;
  need_outcome = false;
  combos = false;
}

abbrev pub crypto_rule : AssetRule
crypto_rule = record {
  sides = buy ∷ sell ∷ [];
  order_types = market ∷ limit ∷ stop_loss_limit ∷ [];
  tifs = day ∷ gtc ∷ ioc ∷ [];
  entrust = by_quantity ∷ by_amount ∷ [];
  max_scale = pos 8;
  need_outcome = false;
  combos = false;
}

abbrev pub event_rule : AssetRule
event_rule = record {
  sides = buy ∷ sell ∷ [];
  order_types = limit ∷ [];
  tifs = day ∷ gtc ∷ ioc ∷ gtd ∷ fok ∷ [];
  entrust = by_quantity ∷ [];
  max_scale = pos 2;
  need_outcome = true;
  combos = false;
}

-- assetRules[t]
unfoldable pub asset_rules : InstrumentType → Option AssetRule
asset_rules t =
    if t == instrument_equity
    then some equity_rule
    else if t == instrument_option
    then some option_rule
    else if t == instrument_futures
    then some futures_rule
    else if t == instrument_crypto
    then some crypto_rule
    else if t == instrument_event
    then some event_rule
    else none

-- A value that this package knows and the rule does not list. An unknown value is left to the server.
unfoldable pub excluded : List String → List String → String → Bool
excluded known allowed v = contains known v && not (contains allowed v)

module _ {D : Type 0} (ops : DecimalOps D) where
  abbrev is_option_leg : OrderLeg D → Bool
  is_option_leg leg = leg.instrument_type == instrument_option || leg.instrument_type == ""

  -- The loop over the legs, from the leg numbered `i`.
  unfoldable pub leg_scale_checks : ℕ → List (OrderLeg D) → List Check
  leg_scale_checks i [] = []
  leg_scale_checks i (leg ∷ legs) =
      (
        is_option_leg leg && leg.quantity.valid && ltb 0 (scale ops leg.quantity.decimal),
        fractional_leg i,
      )
      ∷ leg_scale_checks (suc i) legs

  -- More decimal places than the rule permits; a negative limit permits any number.
  unfoldable pub over_scale : AssetRule → NullDecimal D → Bool
  over_scale rule q =
      leb_ℤ (pos 0) rule.max_scale && q.valid && ltb_ℤ rule.max_scale (pos (scale ops q.decimal))

  unfoldable pub rule_checks : AssetRule → Order D → List Check
  rule_checks rule o =
      (excluded known_sides rule.sides o.side, side_unsupported o.instrument_type o.side)
        ∷ (
          excluded known_types rule.order_types o.order_type,
          type_unsupported o.instrument_type o.order_type,
        )
        ∷ (
          excluded known_tifs rule.tifs o.time_in_force,
          tif_unsupported o.instrument_type o.time_in_force,
        )
        ∷ (
          excluded known_entrust rule.entrust o.entrust_type,
          entrust_unsupported o.instrument_type o.entrust_type,
        )
        ∷ (over_scale rule o.quantity, too_many_places o.instrument_type)
        ∷ leg_scale_checks 0 o.legs
      ++ (rule.need_outcome && o.event_outcome == "", outcome_required)
        ∷ (not rule.need_outcome && not (o.event_outcome == ""), outcome_forbidden)
        ∷ (not (o.combo_type == normal) && not rule.combos, combo_unsupported o.instrument_type)
        ∷ []

  unfoldable pub checks_of_rule : Option AssetRule → Order D → List Check
  checks_of_rule none o = []
  checks_of_rule (some rule) o = rule_checks rule o

  -- Order.validateAsset: the checks whose problems it appends.
  unfoldable pub validate_asset : Order D → List Check
  validate_asset o = checks_of_rule (asset_rules o.instrument_type) o
