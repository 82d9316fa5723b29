-- ===== src/MarketData/Responses/Options.antt =====
-- Option snapshots and ticks as they are decoded: marketdata/options.go.
use webull.Common.{String, Option, none, List, []}
use webull.Common.Int.{ℤ}
use webull.Errors.{Result, ◌>>=◌, ok}
use webull.Trade.Decimal.{NullDecimal, absent}
use webull.MarketData.Responses.Stocks.{Tick}
use webull.MarketData.Responses.Stocks.Zero.{zero_tick}
use webull.MarketData.Responses.Stocks.Decoding.{decode_tick}
use webull.Json.Times.{millis_json}
use webull.Json.{Fields, read_field, text_json, struct_json, list_json, Reader, null_decimal_json}

pub record OptionSnapshot (D : Type 0) : Type 0 where
  pub symbol : String
  pub instrument_id : String
  pub price : NullDecimal D
  pub open_price : NullDecimal D
  pub high : NullDecimal D
  pub low : NullDecimal D
  pub close : NullDecimal D
  pub pre_close : NullDecimal D
  pub volume : NullDecimal D
  pub change : NullDecimal D
  pub change_ratio : NullDecimal D
  pub last_trade_time : Option ℤ
  pub bid : NullDecimal D
  pub bid_size : NullDecimal D
  pub ask : NullDecimal D
  pub ask_size : NullDecimal D
  pub quote_time : Option ℤ
  pub strike_price : NullDecimal D
  pub open_interest : NullDecimal D
  pub deal_amount : NullDecimal D
  pub delta : NullDecimal D
  pub gamma : NullDecimal D
  pub theta : NullDecimal D
  pub vega : NullDecimal D
  pub rho : NullDecimal D
  pub implied_vol : NullDecimal D

pub record AssetTicks (D : Type 0) : Type 0 where
  pub symbol : String
  pub instrument_id : String
  pub ticks : List (Tick D)

module _ {D T : Type 0} (r : Reader D T) where
  abbrev pub zero_option_snapshot : OptionSnapshot D
  zero_option_snapshot = record {
    symbol = "";
    instrument_id = "";
    price = absent r.ops;
    open_price = absent r.ops;
    high = absent r.ops;
    low = absent r.ops;
    close = absent r.ops;
    pre_close = absent r.ops;
    volume = absent r.ops;
    change = absent r.ops;
    change_ratio = absent r.ops;
    last_trade_time = none;
    bid = absent r.ops;
    bid_size = absent r.ops;
    ask = absent r.ops;
    ask_size = absent r.ops;
    quote_time = none;
    strike_price = absent r.ops;
    open_interest = absent r.ops;
    deal_amount = absent r.ops;
    delta = absent r.ops;
    gamma = absent r.ops;
    theta = absent r.ops;
    vega = absent r.ops;
    rho = absent r.ops;
    implied_vol = absent r.ops;
  }

  unfoldable pub decode_option_snapshot : OptionSnapshot D → Fields → Result (OptionSnapshot D)
  decode_option_snapshot x fs = do
    symbol ← read_field "symbol" text_json x.symbol fs
    instrument_id ← read_field "instrument_id" text_json x.instrument_id fs
    price ← read_field "price" (null_decimal_json r) x.price fs
    open_price ← read_field "open" (null_decimal_json r) x.open_price fs
    high ← read_field "high" (null_decimal_json r) x.high fs
    low ← read_field "low" (null_decimal_json r) x.low fs
    close ← read_field "close" (null_decimal_json r) x.close fs
    pre_close ← read_field "pre_close" (null_decimal_json r) x.pre_close fs
    volume ← read_field "volume" (null_decimal_json r) x.volume fs
    change ← read_field "change" (null_decimal_json r) x.change fs
    change_ratio ← read_field "change_ratio" (null_decimal_json r) x.change_ratio fs
    last_trade_time ← read_field "last_trade_time" millis_json x.last_trade_time fs
    bid ← read_field "bid" (null_decimal_json r) x.bid fs
    bid_size ← read_field "bid_size" (null_decimal_json r) x.bid_size fs
    ask ← read_field "ask" (null_decimal_json r) x.ask fs
    ask_size ← read_field "ask_size" (null_decimal_json r) x.ask_size fs
    quote_time ← read_field "quote_time" millis_json x.quote_time fs
    strike_price ← read_field "strike_price" (null_decimal_json r) x.strike_price fs
    open_interest ← read_field "open_interest" (null_decimal_json r) x.open_interest fs
    deal_amount ← read_field "deal_amount" (null_decimal_json r) x.deal_amount fs
    delta ← read_field "delta" (null_decimal_json r) x.delta fs
    gamma ← read_field "gamma" (null_decimal_json r) x.gamma fs
    theta ← read_field "theta" (null_decimal_json r) x.theta fs
    vega ← read_field "vega" (null_decimal_json r) x.vega fs
    rho ← read_field "rho" (null_decimal_json r) x.rho fs
    implied_vol ← read_field "imp_vol" (null_decimal_json r) x.implied_vol fs
    ok (record {
      symbol = symbol;
      instrument_id = instrument_id;
      price = price;
      open_price = open_price;
      high = high;
      low = low;
      close = close;
      pre_close = pre_close;
      volume = volume;
      change = change;
      change_ratio = change_ratio;
      last_trade_time = last_trade_time;
      bid = bid;
      bid_size = bid_size;
      ask = ask;
      ask_size = ask_size;
      quote_time = quote_time;
      strike_price = strike_price;
      open_interest = open_interest;
      deal_amount = deal_amount;
      delta = delta;
      gamma = gamma;
      theta = theta;
      vega = vega;
      rho = rho;
      implied_vol = implied_vol;
    })

  abbrev pub zero_asset_ticks : AssetTicks D
  zero_asset_ticks = record { symbol = ""; instrument_id = ""; ticks = [] }

  unfoldable pub decode_asset_ticks : AssetTicks D → Fields → Result (AssetTicks D)
  decode_asset_ticks x fs = do
    symbol ← read_field "symbol" text_json x.symbol fs
    instrument_id ← read_field "instrumentId" text_json x.instrument_id fs
    ticks ← read_field "result" (list_json (zero_tick r) (struct_json (decode_tick r))) x.ticks fs
    ok (record { symbol = symbol; instrument_id = instrument_id; ticks = ticks })
