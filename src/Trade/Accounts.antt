-- ===== src/Trade/Accounts.antt =====
-- Accounts, balances, positions and cash activities as they are decoded: trade/accounts.go.
pub mod Zero
pub mod Decoding
pub mod Margins
pub mod Samples
use webull.Common.{String, Bool, false, Option, none, List, []}
use webull.Common.Int.{ℤ, pos}
use webull.Errors.{Result, ◌>>=◌, ok}
use webull.Trade.Decimal.{NullDecimal, absent}
use webull.Json.Times.{millis_json}
use webull.Json.{
  Fields, read_field, text_json, bool_json, int_json, struct_json, list_json, Reader, decimal_json,
  null_decimal_json,
}

pub record Account : Type 0 where
  pub account_id : String
  pub account_number : String
  pub account_type : String
  pub account_label : String
  pub account_class : String
  pub user_id : String

pub record CurrencyAssets (D : Type 0) : Type 0 where
  pub currency : String
  pub cash_balance : D
  pub market_value : D
  pub unrealized_profit_loss : D
  pub settled_cash : NullDecimal D
  pub unsettled_cash : NullDecimal D
  pub held_amount : NullDecimal D
  pub frozen_amount : NullDecimal D
  pub buying_power : NullDecimal D
  pub available_withdrawal : NullDecimal D
  pub interests_unpaid : NullDecimal D
  pub net_liquidation_value : NullDecimal D
  pub option_buying_power : NullDecimal D
  pub day_buying_power : NullDecimal D
  pub overnight_buying_power : NullDecimal D
  pub night_trading_buying_power : NullDecimal D
  pub day_profit_loss : NullDecimal D
  pub used_margin : NullDecimal D
  pub used_margin_for_open_order : NullDecimal D
  pub init_margin : NullDecimal D
  pub maintenance_margin : NullDecimal D
  pub intraday_margin : NullDecimal D
  pub margin_excess : NullDecimal D
  pub margin_ratio : NullDecimal D

pub record Balance (D : Type 0) : Type 0 where
  pub currency : String
  pub total_cash_balance : D
  pub total_market_value : D
  pub total_unrealized_profit_loss : D
  pub total_net_liquidation_value : D
  pub total_day_profit_loss : D
  pub day_trades_left : String
  pub maintenance_margin : NullDecimal D
  pub used_margin : NullDecimal D
  pub used_margin_for_open_order : NullDecimal D
  pub init_margin : NullDecimal D
  pub intraday_margin : NullDecimal D
  pub margin_excess : NullDecimal D
  pub margin_ratio : NullDecimal D
  pub open_margin_calls : List String
  pub currency_assets : List (CurrencyAssets D)

pub record PositionLeg (D : Type 0) : Type 0 where
  pub leg_id : String
  pub symbol : String
  pub quantity : NullDecimal D
  pub option_type : String
  pub expire_date : String
  pub exercise_price : NullDecimal D
  pub contract_multiplier : NullDecimal D
  pub contract_deliverable : NullDecimal D
  pub expiration_type : String

pub record Position (D : Type 0) : Type 0 where
  pub position_id : String
  pub currency : String
  pub symbol : String
  pub instrument_type : String
  pub option_strategy : String
  pub quantity : D
  pub last_price : D
  pub cost_price : D
  pub unrealized_profit_loss : D
  pub event_outcome : String
  pub legs : List (PositionLeg D)

pub record CashActivity (D T : Type 0) : Type 0 where
  pub id : String
  pub account_id : String
  pub activity_type : String
  pub activity_sub_type : String
  pub currency : String
  pub market : String
  pub symbol : String
  pub trade_date : String
  pub net_amount : D
  pub biz_time : T
