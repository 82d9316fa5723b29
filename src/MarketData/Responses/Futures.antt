-- ===== src/MarketData/Responses/Futures.antt =====
-- Futures snapshots as they are decoded: marketdata/futures.go.
use webull.Common.{String, Option, none}
use webull.Common.Int.{ℤ}
use webull.Errors.{Result, ◌>>=◌, ok}
use webull.Trade.Decimal.{NullDecimal, absent}
use webull.Json.Times.{time_json, millis_json}
use webull.Json.{Fields, read_field, text_json, Reader, null_decimal_json}

pub record FuturesSnapshot (D T : Type 0) : Type 0 where
  pub symbol : String
  pub instrument_id : String
  pub price : NullDecimal D
  pub open_price : NullDecimal D
  pub high : NullDecimal D
  pub low : NullDecimal D
  pub pre_close : NullDecimal D
  pub volume : NullDecimal D
  pub change : NullDecimal D
  pub change_ratio : NullDecimal D
  pub last_trade_time : Option ℤ
  pub bid : NullDecimal D
  pub bid_size : NullDecimal D
  pub ask : NullDecimal D
  pub ask_size : NullDecimal D
  pub quote_time : Option ℤ
  pub open_interest : NullDecimal D
  pub settle_price : NullDecimal D
  pub settle_date : T

module _ {D T : Type 0} (r : Reader D T) where
  abbrev pub zero_futures_snapshot : FuturesSnapshot D T
  zero_futures_snapshot = record {
    symbol = "";
    instrument_id = "";
    price = absent r.ops;
    open_price = absent r.ops;
    high = absent r.ops;
    low = absent r.ops;
    pre_close = absent r.ops;
    volume = absent r.ops;
    change = absent r.ops;
    change_ratio = absent r.ops;
    last_trade_time = none;
    bid = absent r.ops;
    bid_size = absent r.ops;
    ask = absent r.ops;
    ask_size = absent r.ops;
    quote_time = none;
    open_interest = absent r.ops;
    settle_price = absent r.ops;
    settle_date = r.zero_time;
  }

  unfoldable pub decode_futures_snapshot :
      FuturesSnapshot D T → Fields → Result (FuturesSnapshot D T)
  decode_futures_snapshot x fs = do
    symbol ← read_field "symbol" text_json x.symbol fs
    instrument_id ← read_field "instrument_id" text_json x.instrument_id fs
    price ← read_field "price" (null_decimal_json r) x.price fs
    open_price ← read_field "open" (null_decimal_json r) x.open_price fs
    high ← read_field "high" (null_decimal_json r) x.high fs
    low ← read_field "low" (null_decimal_json r) x.low fs
    pre_close ← read_field "pre_close" (null_decimal_json r) x.pre_close fs
    volume ← read_field "volume" (null_decimal_json r) x.volume fs
    change ← read_field "change" (null_decimal_json r) x.change fs
    change_ratio ← read_field "change_ratio" (null_decimal_json r) x.change_ratio fs
    last_trade_time ← read_field "last_trade_time" millis_json x.last_trade_time fs
    bid ← read_field "bid" (null_decimal_json r) x.bid fs
    bid_size ← read_field "bid_size" (null_decimal_json r) x.bid_size fs
    ask ← read_field "ask" (null_decimal_json r) x.ask fs
    ask_size ← read_field "ask_size" (null_decimal_json r) x.ask_size fs
    quote_time ← read_field "quote_time" millis_json x.quote_time fs
    open_interest ← read_field "open_interest" (null_decimal_json r) x.open_interest fs
    settle_price ← read_field "settle_price" (null_decimal_json r) x.settle_price fs
    settle_date ← read_field "settle_date" (time_json r) x.settle_date fs
    ok (record {
      symbol = symbol;
      instrument_id = instrument_id;
      price = price;
      open_price = open_price;
      high = high;
      low = low;
      pre_close = pre_close;
      volume = volume;
      change = change;
      change_ratio = change_ratio;
      last_trade_time = last_trade_time;
      bid = bid;
      bid_size = bid_size;
      ask = ask;
      ask_size = ask_size;
      quote_time = quote_time;
      open_interest = open_interest;
      settle_price = settle_price;
      settle_date = settle_date;
    })
