-- ===== src/Streaming/Wire.antt =====
-- The messages of the market-data stream as they are on the wire (internal/streampb/message.proto).
-- A field that is not set reads as the empty text.
use webull.Common.{String, Option, List}

pub record PbBasic : Type 0 where
  pub symbol : String
  pub instrument_id : String
  pub timestamp : String
  pub trading_session : String

pub record PbOrder : Type 0 where
  pub mpid : String
  pub size : String

pub record PbBroker : Type 0 where
  pub bid : String
  pub name : String

pub record PbAskBid : Type 0 where
  pub price : String
  pub size : String
  pub order : List PbOrder
  pub broker : List PbBroker

pub record PbSnapshot : Type 0 where
  pub basic : Option PbBasic
  pub trade_time : String
  pub price : String
  pub open_price : String
  pub high : String
  pub low : String
  pub pre_close : String
  pub volume : String
  pub change : String
  pub change_ratio : String
  pub ext_trade_time : String
  pub ext_price : String
  pub ext_high : String
  pub ext_low : String
  pub ext_volume : String
  pub ext_change : String
  pub ext_change_ratio : String
  pub ovn_trade_time : String
  pub ovn_price : String
  pub ovn_high : String
  pub ovn_low : String
  pub ovn_volume : String
  pub ovn_change : String
  pub ovn_change_ratio : String

pub record PbQuote : Type 0 where
  pub basic : Option PbBasic
  pub asks : List PbAskBid
  pub bids : List PbAskBid

pub record PbTick : Type 0 where
  pub basic : Option PbBasic
  pub time : String
  pub price : String
  pub volume : String
  pub side : String

pub record PbEventSnapshot : Type 0 where
  pub basic : Option PbBasic
  pub price : String
  pub volume : String
  pub last_trade_time : String
  pub open_interest : String
  pub yes_ask : String
  pub yes_bid : String
  pub yes_ask_size : String
  pub yes_bid_size : String
  pub no_ask : String
  pub no_bid : String
  pub no_ask_size : String
  pub no_bid_size : String

pub record PbEventAskBid : Type 0 where
  pub price : String
  pub size : String

pub record PbEventQuote : Type 0 where
  pub basic : Option PbBasic
  pub yes_bids : List PbEventAskBid
  pub no_bids : List PbEventAskBid

pub record PbEventTick : Type 0 where
  pub basic : Option PbBasic
  pub yes_price : String
  pub no_price : String
  pub volume : String
  pub side : String
  pub trade_id : String
  pub time : String
