-- ===== src/MarketData/Responses/Stocks.antt =====
-- Snapshots, depths, ticks, bars and imbalances of stocks as they are decoded: marketdata/stocks.go.
pub mod Zero
pub mod Decoding
use webull.Common.{String, Option, none, List, []}
use webull.Common.Int.{ℤ}
use webull.Errors.{Result, ◌>>=◌, ok}
use webull.Trade.Decimal.{NullDecimal, absent}
use webull.Json.Times.{time_json, millis_json}
use webull.Json.{
  Fields, read_field, text_json, struct_json, list_json, Reader, decimal_json, null_decimal_json,
}

pub record Snapshot (D : Type 0) : Type 0 where
  pub symbol : String
  pub instrument_id : String
  pub price : NullDecimal D
  pub open_price : NullDecimal D
  pub high : NullDecimal D
  pub low : NullDecimal D
  pub close : NullDecimal D
  pub pre_close : NullDecimal D
  pub volume : NullDecimal D
  pub change : NullDecimal D
  pub change_ratio : NullDecimal D
  pub last_trade_time : Option ℤ
  pub ask : NullDecimal D
  pub ask_size : NullDecimal D
  pub bid : NullDecimal D
  pub bid_size : NullDecimal D
  pub quote_time : Option ℤ
  pub turnover : NullDecimal D
  pub eps : NullDecimal D
  pub epsttm : NullDecimal D
  pub lot_size : NullDecimal D
  pub bps : NullDecimal D
  pub pe_ratio : NullDecimal D
  pub pb_ratio : NullDecimal D
  pub ps_ratio : NullDecimal D
  pub yield : NullDecimal D
  pub market_value : NullDecimal D
  pub neg_market_value : NullDecimal D
  pub total_shares : NullDecimal D
  pub outstanding_shares : NullDecimal D
  pub fifty_two_week_high : NullDecimal D
  pub fifty_two_week_low : NullDecimal D
  pub list_status : String
  pub extended_last_price : NullDecimal D
  pub extended_high : NullDecimal D
  pub extended_low : NullDecimal D
  pub extended_change : NullDecimal D
  pub extended_change_ratio : NullDecimal D
  pub extended_volume : NullDecimal D
  pub extended_last_trade_time : Option ℤ
  pub overnight_price : NullDecimal D
  pub overnight_high : NullDecimal D
  pub overnight_low : NullDecimal D
  pub overnight_volume : NullDecimal D
  pub overnight_change : NullDecimal D
  pub overnight_change_ratio : NullDecimal D
  pub overnight_last_trade_time : Option ℤ
  pub overnight_ask : NullDecimal D
  pub overnight_ask_size : NullDecimal D
  pub overnight_bid : NullDecimal D
  pub overnight_bid_size : NullDecimal D
  pub overnight_quote_time : Option ℤ

pub record LevelOrder (D : Type 0) : Type 0 where
  pub mpid : String
  pub size : D

pub record LevelBroker : Type 0 where
  pub id : String
  pub name : String

pub record Level (D : Type 0) : Type 0 where
  pub price : D
  pub size : D
  pub orders : List (LevelOrder D)
  pub broker : List LevelBroker

pub record Depth (D : Type 0) : Type 0 where
  pub symbol : String
  pub instrument_id : String
  pub quote_time : Option ℤ
  pub asks : List (Level D)
  pub bids : List (Level D)

pub record Tick (D : Type 0) : Type 0 where
  pub time : Option ℤ
  pub price : D
  pub volume : D
  pub side : String
  pub session : String

pub record Ticks (D : Type 0) : Type 0 where
  pub symbol : String
  pub instrument_id : String
  pub ticks : List (Tick D)

pub record Bar (D T : Type 0) : Type 0 where
  pub time : T
  pub open_price : D
  pub high : D
  pub low : D
  pub close : D
  pub volume : D
  pub session : String

pub record Bars (D T : Type 0) : Type 0 where
  pub symbol : String
  pub instrument_id : String
  pub bars : List (Bar D T)

pub record Imbalance (D : Type 0) : Type 0 where
  pub symbol : String
  pub instrument_id : String
  pub time : Option ℤ
  pub type : String
  pub ref_price : D
  pub near_price : D
  pub far_price : D

pub record ImbalanceSnapshot (D : Type 0) : Type 0 where
  pub imbalance : Imbalance D
  pub paired_shares : D
  pub imbalance_shares : D
  pub side : String
  pub var_indicator : String
