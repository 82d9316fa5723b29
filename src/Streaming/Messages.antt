-- ===== src/Streaming/Messages.antt =====
-- What a market-data message holds: streaming/messages.go. Times are in milliseconds since the epoch,
-- none for the zero time.
pub mod Fields
pub mod Times
pub mod Decode
pub mod Populated
use webull.Common.{String, Option, List}
use webull.Common.Int.{ℤ}
use webull.Trade.Decimal.{NullDecimal}

abbrev pub Time : Type 0
Time = Option ℤ

pub record Basic : Type 0 where
  pub symbol : String
  pub instrument_id : String
  pub time : Time
  pub session : String

pub record Snapshot (D : Type 0) : Type 0 where
  pub basic : Basic
  pub trade_time : Time
  pub price : NullDecimal D
  pub open_price : NullDecimal D
  pub high : NullDecimal D
  pub low : NullDecimal D
  pub pre_close : NullDecimal D
  pub volume : NullDecimal D
  pub change : NullDecimal D
  pub change_ratio : NullDecimal D
  pub extended_trade_time : Time
  pub extended_price : NullDecimal D
  pub extended_high : NullDecimal D
  pub extended_low : NullDecimal D
  pub extended_volume : NullDecimal D
  pub extended_change : NullDecimal D
  pub extended_change_ratio : NullDecimal D
  pub overnight_trade_time : Time
  pub overnight_price : NullDecimal D
  pub overnight_high : NullDecimal D
  pub overnight_low : NullDecimal D
  pub overnight_volume : NullDecimal D
  pub overnight_change : NullDecimal D
  pub overnight_change_ratio : NullDecimal D

pub record LevelOrder (D : Type 0) : Type 0 where
  pub mpid : String
  pub size : NullDecimal D

pub record LevelBroker : Type 0 where
  pub id : String
  pub name : String

pub record Level (D : Type 0) : Type 0 where
  pub price : NullDecimal D
  pub size : NullDecimal D
  pub orders : List (LevelOrder D)
  pub brokers : List LevelBroker

pub record Quote (D : Type 0) : Type 0 where
  pub basic : Basic
  pub asks : List (Level D)
  pub bids : List (Level D)

pub record Tick (D : Type 0) : Type 0 where
  pub basic : Basic
  pub time : Time
  pub price : NullDecimal D
  pub volume : NullDecimal D
  pub side : String

pub record EventSnapshot (D : Type 0) : Type 0 where
  pub basic : Basic
  pub price : NullDecimal D
  pub volume : NullDecimal D
  pub last_trade_time : Time
  pub open_interest : NullDecimal D
  pub yes_ask : NullDecimal D
  pub yes_bid : NullDecimal D
  pub yes_ask_size : NullDecimal D
  pub yes_bid_size : NullDecimal D
  pub no_ask : NullDecimal D
  pub no_bid : NullDecimal D
  pub no_ask_size : NullDecimal D
  pub no_bid_size : NullDecimal D

pub record EventLevel (D : Type 0) : Type 0 where
  pub price : NullDecimal D
  pub size : NullDecimal D

pub record EventQuote (D : Type 0) : Type 0 where
  pub basic : Basic
  pub yes_bids : List (EventLevel D)
  pub no_bids : List (EventLevel D)

pub record EventTick (D : Type 0) : Type 0 where
  pub basic : Basic
  pub yes_price : NullDecimal D
  pub no_price : NullDecimal D
  pub volume : NullDecimal D
  pub side : String
  pub trade_id : String
  pub time : Time
