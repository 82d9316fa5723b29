-- ===== src/MarketData/Responses/EventContracts.antt =====
-- Snapshots, depths and ticks of event contracts as they are decoded: marketdata/events.go.
use webull.Common.{String, Option, none, List, []}
use webull.Common.Int.{ℤ}
use webull.Errors.{Result, ◌>>=◌, ok}
use webull.Trade.Decimal.{NullDecimal, absent}
use webull.MarketData.Responses.Stocks.{Level}
use webull.MarketData.Responses.Stocks.Zero.{zero_level}
use webull.MarketData.Responses.Stocks.Decoding.{decode_level}
use webull.Json.Times.{millis_json}
use webull.Json.{
  Fields, read_field, text_json, struct_json, list_json, Reader, decimal_json, null_decimal_json,
}

pub record EventSnapshot (D : Type 0) : Type 0 where
  pub symbol : String
  pub instrument_id : String
  pub name : String
  pub price : NullDecimal D
  pub volume : NullDecimal D
  pub open_interest : NullDecimal D
  pub last_trade_time : Option ℤ
  pub yes_bid : NullDecimal D
  pub yes_bid_size : NullDecimal D
  pub yes_ask : NullDecimal D
  pub yes_ask_size : NullDecimal D
  pub no_bid : NullDecimal D
  pub no_bid_size : NullDecimal D
  pub no_ask : NullDecimal D
  pub no_ask_size : NullDecimal D

pub record EventDepth (D : Type 0) : Type 0 where
  pub symbol : String
  pub instrument_id : String
  pub quote_time : Option ℤ
  pub yes_bids : List (Level D)
  pub yes_asks : List (Level D)
  pub no_bids : List (Level D)
  pub no_asks : List (Level D)

pub record EventTick (D : Type 0) : Type 0 where
  pub time : Option ℤ
  pub trade_id : String
  pub side : String
  pub yes_price : D
  pub no_price : D
  pub volume : D

pub record EventTicks (D : Type 0) : Type 0 where
  pub symbol : String
  pub instrument_id : String
  pub ticks : List (EventTick D)

module _ {D T : Type 0} (r : Reader D T) where
  abbrev pub zero_event_snapshot : EventSnapshot D
  zero_event_snapshot = record {
    symbol = "";
    instrument_id = "";
    name = "";
    price = absent r.ops;
    volume = absent r.ops;
    open_interest = absent r.ops;
    last_trade_time = none;
    yes_bid = absent r.ops;
    yes_bid_size = absent r.ops;
    yes_ask = absent r.ops;
    yes_ask_size = absent r.ops;
    no_bid = absent r.ops;
    no_bid_size = absent r.ops;
    no_ask = absent r.ops;
    no_ask_size = absent r.ops;
  }

  unfoldable pub decode_event_snapshot : EventSnapshot D → Fields → Result (EventSnapshot D)
  decode_event_snapshot x fs = do
    symbol ← read_field "symbol" text_json x.symbol fs
    instrument_id ← read_field "instrument_id" text_json x.instrument_id fs
    name ← read_field "name" text_json x.name fs
    price ← read_field "price" (null_decimal_json r) x.price fs
    volume ← read_field "volume" (null_decimal_json r) x.volume fs
    open_interest ← read_field "open_interest" (null_decimal_json r) x.open_interest fs
    last_trade_time ← read_field "last_trade_time" millis_json x.last_trade_time fs
    yes_bid ← read_field "yes_bid" (null_decimal_json r) x.yes_bid fs
    yes_bid_size ← read_field "yes_bid_size" (null_decimal_json r) x.yes_bid_size fs
    yes_ask ← read_field "yes_ask" (null_decimal_json r) x.yes_ask fs
    yes_ask_size ← read_field "yes_ask_size" (null_decimal_json r) x.yes_ask_size fs
    no_bid ← read_field "no_bid" (null_decimal_json r) x.no_bid fs
    no_bid_size ← read_field "no_bid_size" (null_decimal_json r) x.no_bid_size fs
    no_ask ← read_field "no_ask" (null_decimal_json r) x.no_ask fs
    no_ask_size ← read_field "no_ask_size" (null_decimal_json r) x.no_ask_size fs
    ok (record {
      symbol = symbol;
      instrument_id = instrument_id;
      name = name;
      price = price;
      volume = volume;
      open_interest = open_interest;
      last_trade_time = last_trade_time;
      yes_bid = yes_bid;
      yes_bid_size = yes_bid_size;
      yes_ask = yes_ask;
      yes_ask_size = yes_ask_size;
      no_bid = no_bid;
      no_bid_size = no_bid_size;
      no_ask = no_ask;
      no_ask_size = no_ask_size;
    })

  abbrev pub zero_event_depth : EventDepth D
  zero_event_depth = record {
    symbol = "";
    instrument_id = "";
    quote_time = none;
    yes_bids = [];
    yes_asks = [];
    no_bids = [];
    no_asks = [];
  }

  unfoldable pub decode_event_depth : EventDepth D → Fields → Result (EventDepth D)
  decode_event_depth x fs = do
    symbol ← read_field "symbol" text_json x.symbol fs
    instrument_id ← read_field "instrument_id" text_json x.instrument_id fs
    quote_time ← read_field "quote_time" millis_json x.quote_time fs
    yes_bids ←
        read_field "yes_bids" (list_json (zero_level r) (struct_json (decode_level r))) x.yes_bids
          fs
    yes_asks ←
        read_field "yes_asks" (list_json (zero_level r) (struct_json (decode_level r))) x.yes_asks
          fs
    no_bids ←
        read_field "no_bids" (list_json (zero_level r) (struct_json (decode_level r))) x.no_bids fs
    no_asks ←
        read_field "no_asks" (list_json (zero_level r) (struct_json (decode_level r))) x.no_asks fs
    ok (record {
      symbol = symbol;
      instrument_id = instrument_id;
      quote_time = quote_time;
      yes_bids = yes_bids;
      yes_asks = yes_asks;
      no_bids = no_bids;
      no_asks = no_asks;
    })

  abbrev pub zero_event_tick : EventTick D
  zero_event_tick = record {
    time = none;
    trade_id = "";
    side = "";
    yes_price = r.ops.zero_value;
    no_price = r.ops.zero_value;
    volume = r.ops.zero_value;
  }

  unfoldable pub decode_event_tick : EventTick D → Fields → Result (EventTick D)
  decode_event_tick x fs = do
    time ← read_field "time" millis_json x.time fs
    trade_id ← read_field "trade_id" text_json x.trade_id fs
    side ← read_field "side" text_json x.side fs
    yes_price ← read_field "yes_price" (decimal_json r) x.yes_price fs
    no_price ← read_field "no_price" (decimal_json r) x.no_price fs
    volume ← read_field "volume" (decimal_json r) x.volume fs
    ok (record {
      time = time;
      trade_id = trade_id;
      side = side;
      yes_price = yes_price;
      no_price = no_price;
      volume = volume;
    })

  abbrev pub zero_event_ticks : EventTicks D
  zero_event_ticks = record { symbol = ""; instrument_id = ""; ticks = [] }

  unfoldable pub decode_event_ticks : EventTicks D → Fields → Result (EventTicks D)
  decode_event_ticks x fs = do
    symbol ← read_field "symbol" text_json x.symbol fs
    instrument_id ← read_field "instrument_id" text_json x.instrument_id fs
    ticks ←
        read_field "result" (list_json zero_event_tick (struct_json decode_event_tick)) x.ticks fs
    ok (record { symbol = symbol; instrument_id = instrument_id; ticks = ticks })
