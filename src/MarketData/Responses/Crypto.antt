-- ===== src/MarketData/Responses/Crypto.antt =====
-- Crypto snapshots as they are decoded: marketdata/crypto.go.
use webull.Common.{String, Option, none}
use webull.Common.Int.{ℤ}
use webull.Errors.{Result, ◌>>=◌, ok}
use webull.Trade.Decimal.{NullDecimal, absent}
use webull.Json.Times.{millis_json}
use webull.Json.{Fields, read_field, text_json, Reader, null_decimal_json}

pub record CryptoSnapshot (D : Type 0) : Type 0 where
  pub symbol : String
  pub instrument_id : String
  pub price : NullDecimal D
  pub open_price : NullDecimal D
  pub high : NullDecimal D
  pub low : NullDecimal D
  pub close : NullDecimal D
  pub pre_close : NullDecimal D
  pub change : NullDecimal D
  pub change_ratio : NullDecimal D
  pub last_trade_time : Option ℤ
  pub bid : NullDecimal D
  pub bid_size : NullDecimal D
  pub ask : NullDecimal D
  pub ask_size : NullDecimal D
  pub quote_time : Option ℤ

module _ {D T : Type 0} (r : Reader D T) where
  abbrev pub zero_crypto_snapshot : CryptoSnapshot D
  zero_crypto_snapshot = record {
    symbol = "";
    instrument_id = "";
    price = absent r.ops;
    open_price = absent r.ops;
    high = absent r.ops;
    low = absent r.ops;
    close = absent r.ops;
    pre_close = absent r.ops;
    change = absent r.ops;
    change_ratio = absent r.ops;
    last_trade_time = none;
    bid = absent r.ops;
    bid_size = absent r.ops;
    ask = absent r.ops;
    ask_size = absent r.ops;
    quote_time = none;
  }

  unfoldable pub decode_crypto_snapshot : CryptoSnapshot D → Fields → Result (CryptoSnapshot D)
  decode_crypto_snapshot x fs = do
    symbol ← read_field "symbol" text_json x.symbol fs
    instrument_id ← read_field "instrument_id" text_json x.instrument_id fs
    price ← read_field "price" (null_decimal_json r) x.price fs
    open_price ← read_field "open" (null_decimal_json r) x.open_price fs
    high ← read_field "high" (null_decimal_json r) x.high fs
    low ← read_field "low" (null_decimal_json r) x.low fs
    close ← read_field "close" (null_decimal_json r) x.close fs
    pre_close ← read_field "pre_close" (null_decimal_json r) x.pre_close fs
    change ← read_field "change" (null_decimal_json r) x.change fs
    change_ratio ← read_field "change_ratio" (null_decimal_json r) x.change_ratio fs
    last_trade_time ← read_field "last_trade_time" millis_json x.last_trade_time fs
    bid ← read_field "bid" (null_decimal_json r) x.bid fs
    bid_size ← read_field "bid_size" (null_decimal_json r) x.bid_size fs
    ask ← read_field "ask" (null_decimal_json r) x.ask fs
    ask_size ← read_field "ask_size" (null_decimal_json r) x.ask_size fs
    quote_time ← read_field "quote_time" millis_json x.quote_time fs
    ok (record {
      symbol = symbol;
      instrument_id = instrument_id;
      price = price;
      open_price = open_price;
      high = high;
      low = low;
      close = close;
      pre_close = pre_close;
      change = change;
      change_ratio = change_ratio;
      last_trade_time = last_trade_time;
      bid = bid;
      bid_size = bid_size;
      ask = ask;
      ask_size = ask_size;
      quote_time = quote_time;
    })
