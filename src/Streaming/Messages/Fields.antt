-- ===== src/Streaming/Messages/Fields.antt =====
-- How the fields of a market-data message are read: dec, millis, basic, levels and the cases of decode
-- in streaming/messages.go.
use webull.Common.{zero, String, true, false, Option, none, some, List, map, ◌==◌, if◌then◌else◌}
use webull.Common.Int.{ℤ, pos}
use webull.Common.Numerals.Reading.{parse_int}
use webull.Trade.Decimal.{NullDecimal}
use webull.Streaming.Wire.{
  PbBasic, PbOrder, PbBroker, PbAskBid, PbSnapshot, PbQuote, PbTick, PbEventSnapshot, PbEventAskBid,
  PbEventQuote, PbEventTick,
}
use webull.Streaming.Messages.{
  Time, Basic, Snapshot, LevelOrder, LevelBroker, Level, Quote, Tick, EventSnapshot, EventLevel,
  EventQuote, EventTick,
}

-- decimal.NewFromString of github.com/shopspring/decimal, and a Decimal's zero value.
pub record DecimalParser (D : Type 0) : Type 0 where
  pub zero_value : D
  pub from_string : String → Option D

-- millis
abbrev pub time_of_millis : Option ℤ → Time
time_of_millis none = none
time_of_millis (some (pos zero)) = none
time_of_millis (some n) = some n

unfoldable pub millis : String → Time
millis s = if s == "" then none else time_of_millis (parse_int s)

unfoldable pub basic_of : Option PbBasic → Basic
basic_of none = record { symbol = ""; instrument_id = ""; time = none; session = "" }
basic_of (some b) = record {
  symbol = b.symbol;
  instrument_id = b.instrument_id;
  time = millis b.timestamp;
  session = b.trading_session;
}

abbrev pub broker_of : PbBroker → LevelBroker
broker_of b = record { id = b.bid; name = b.name }

module _ {D : Type 0} (parser : DecimalParser D) where
  abbrev no_decimal : NullDecimal D
  no_decimal = record { decimal = parser.zero_value; valid = false }

  abbrev pub parsed : Option D → NullDecimal D
  parsed none = no_decimal
  parsed (some d) = record { decimal = d; valid = true }

  unfoldable pub dec : String → NullDecimal D
  dec s = if s == "" then no_decimal else parsed (parser.from_string s)

  abbrev pub order_of : PbOrder → LevelOrder D
  order_of o = record { mpid = o.mpid; size = dec o.size }

  abbrev pub level_of : PbAskBid → Level D
  level_of l = record {
    price = dec l.price;
    size = dec l.size;
    orders = map order_of l.order;
    brokers = map broker_of l.broker;
  }

  unfoldable pub levels : List PbAskBid → List (Level D)
  levels ls = map level_of ls

  abbrev pub event_level_of : PbEventAskBid → EventLevel D
  event_level_of l = record { price = dec l.price; size = dec l.size }

  unfoldable pub event_levels : List PbEventAskBid → List (EventLevel D)
  event_levels ls = map event_level_of ls

  abbrev pub snapshot_of : PbSnapshot → Snapshot D
  snapshot_of pb = record {
    basic = basic_of pb.basic;
    trade_time = millis pb.trade_time;
    price = dec pb.price;
    open_price = dec pb.open_price;
    high = dec pb.high;
    low = dec pb.low;
    pre_close = dec pb.pre_close;
    volume = dec pb.volume;
    change = dec pb.change;
    change_ratio = dec pb.change_ratio;
    extended_trade_time = millis pb.ext_trade_time;
    extended_price = dec pb.ext_price;
    extended_high = dec pb.ext_high;
    extended_low = dec pb.ext_low;
    extended_volume = dec pb.ext_volume;
    extended_change = dec pb.ext_change;
    extended_change_ratio = dec pb.ext_change_ratio;
    overnight_trade_time = millis pb.ovn_trade_time;
    overnight_price = dec pb.ovn_price;
    overnight_high = dec pb.ovn_high;
    overnight_low = dec pb.ovn_low;
    overnight_volume = dec pb.ovn_volume;
    overnight_change = dec pb.ovn_change;
    overnight_change_ratio = dec pb.ovn_change_ratio;
  }

  abbrev pub quote_of : PbQuote → Quote D
  quote_of pb = record { basic = basic_of pb.basic; asks = levels pb.asks; bids = levels pb.bids }

  abbrev pub tick_of : PbTick → Tick D
  tick_of pb = record {
    basic = basic_of pb.basic;
    time = millis pb.time;
    price = dec pb.price;
    volume = dec pb.volume;
    side = pb.side;
  }

  abbrev pub event_snapshot_of : PbEventSnapshot → EventSnapshot D
  event_snapshot_of pb = record {
    basic = basic_of pb.basic;
    price = dec pb.price;
    volume = dec pb.volume;
    last_trade_time = millis pb.last_trade_time;
    open_interest = dec pb.open_interest;
    yes_ask = dec pb.yes_ask;
    yes_bid = dec pb.yes_bid;
    yes_ask_size = dec pb.yes_ask_size;
    yes_bid_size = dec pb.yes_bid_size;
    no_ask = dec pb.no_ask;
    no_bid = dec pb.no_bid;
    no_ask_size = dec pb.no_ask_size;
    no_bid_size = dec pb.no_bid_size;
  }

  abbrev pub event_quote_of : PbEventQuote → EventQuote D
  event_quote_of pb = record {
    basic = basic_of pb.basic;
    yes_bids = event_levels pb.yes_bids;
    no_bids = event_levels pb.no_bids;
  }

  abbrev pub event_tick_of : PbEventTick → EventTick D
  event_tick_of pb = record {
    basic = basic_of pb.basic;
    yes_price = dec pb.yes_price;
    no_price = dec pb.no_price;
    volume = dec pb.volume;
    side = pb.side;
    trade_id = pb.trade_id;
    time = millis pb.time;
  }
