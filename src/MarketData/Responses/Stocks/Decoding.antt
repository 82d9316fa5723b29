-- ===== src/MarketData/Responses/Stocks/Decoding.antt =====
-- Snapshots, depths, ticks, bars and imbalances of stocks: how each object is decoded (marketdata/stocks.go).
use webull.Errors.{Result, ◌>>=◌, ok}
use webull.Json.Times.{time_json, millis_json}
use webull.Json.{
  Fields, read_field, text_json, struct_json, list_json, Reader, decimal_json, null_decimal_json,
}
use webull.MarketData.Responses.Stocks.{
  Snapshot, LevelOrder, LevelBroker, Level, Depth, Tick, Ticks, Bar, Bars, Imbalance,
  ImbalanceSnapshot,
}
use webull.MarketData.Responses.Stocks.Zero.{
  zero_level_broker, zero_level_order, zero_level, zero_tick, zero_bar,
}

unfoldable pub decode_level_broker : LevelBroker → Fields → Result LevelBroker
decode_level_broker x fs = do
  id ← read_field "bid" text_json x.id fs
  name ← read_field "name" text_json x.name fs
  ok (record { id = id; name = name })

module _ {D T : Type 0} (r : Reader D T) where
  unfoldable pub decode_snapshot : Snapshot D → Fields → Result (Snapshot D)
  decode_snapshot x fs = do
    symbol ← read_field "symbol" text_json x.symbol fs
    instrument_id ← read_field "instrument_id" text_json x.instrument_id fs
    price ← read_field "price" (null_decimal_json r) x.price fs
    open_price ← read_field "open" (null_decimal_json r) x.open_price fs
    high ← read_field "high" (null_decimal_json r) x.high fs
    low ← read_field "low" (null_decimal_json r) x.low fs
    close ← read_field "close" (null_decimal_json r) x.close fs
    pre_close ← read_field "pre_close" (null_decimal_json r) x.pre_close fs
    volume ← read_field "volume" (null_decimal_json r) x.volume fs
    change ← read_field "change" (null_decimal_json r) x.change fs
    change_ratio ← read_field "change_ratio" (null_decimal_json r) x.change_ratio fs
    last_trade_time ← read_field "last_trade_time" millis_json x.last_trade_time fs
    ask ← read_field "ask" (null_decimal_json r) x.ask fs
    ask_size ← read_field "ask_size" (null_decimal_json r) x.ask_size fs
    bid ← read_field "bid" (null_decimal_json r) x.bid fs
    bid_size ← read_field "bid_size" (null_decimal_json r) x.bid_size fs
    quote_time ← read_field "quote_time" millis_json x.quote_time fs
    turnover ← read_field "turnover" (null_decimal_json r) x.turnover fs
    eps ← read_field "eps" (null_decimal_json r) x.eps fs
    epsttm ← read_field "eps_ttm" (null_decimal_json r) x.epsttm fs
    lot_size ← read_field "lot_size" (null_decimal_json r) x.lot_size fs
    bps ← read_field "bps" (null_decimal_json r) x.bps fs
    pe_ratio ← read_field "pe_ratio" (null_decimal_json r) x.pe_ratio fs
    pb_ratio ← read_field "pb_ratio" (null_decimal_json r) x.pb_ratio fs
    ps_ratio ← read_field "ps_ratio" (null_decimal_json r) x.ps_ratio fs
    yield ← read_field "yield" (null_decimal_json r) x.yield fs
    market_value ← read_field "market_value" (null_decimal_json r) x.market_value fs
    neg_market_value ← read_field "neg_market_value" (null_decimal_json r) x.neg_market_value fs
    total_shares ← read_field "total_shares" (null_decimal_json r) x.total_shares fs
    outstanding_shares ←
        read_field "out_standing_shares" (null_decimal_json r) x.outstanding_shares fs
    fifty_two_week_high ←
        read_field "fifty_two_wk_high" (null_decimal_json r) x.fifty_two_week_high fs
    fifty_two_week_low ← read_field "fifty_two_wk_low" (null_decimal_json r) x.fifty_two_week_low fs
    list_status ← read_field "list_status" text_json x.list_status fs
    extended_last_price ←
        read_field "extend_hour_last_price" (null_decimal_json r) x.extended_last_price fs
    extended_high ← read_field "extend_hour_high" (null_decimal_json r) x.extended_high fs
    extended_low ← read_field "extend_hour_low" (null_decimal_json r) x.extended_low fs
    extended_change ← read_field "extend_hour_change" (null_decimal_json r) x.extended_change fs
    extended_change_ratio ←
        read_field "extend_hour_change_ratio" (null_decimal_json r) x.extended_change_ratio fs
    extended_volume ← read_field "extend_hour_volume" (null_decimal_json r) x.extended_volume fs
    extended_last_trade_time ←
        read_field "extend_hour_last_trade_time" millis_json x.extended_last_trade_time fs
    overnight_price ← read_field "ovn_price" (null_decimal_json r) x.overnight_price fs
    overnight_high ← read_field "ovn_high" (null_decimal_json r) x.overnight_high fs
    overnight_low ← read_field "ovn_low" (null_decimal_json r) x.overnight_low fs
    overnight_volume ← read_field "ovn_volume" (null_decimal_json r) x.overnight_volume fs
    overnight_change ← read_field "ovn_change" (null_decimal_json r) x.overnight_change fs
    overnight_change_ratio ←
        read_field "ovn_change_ratio" (null_decimal_json r) x.overnight_change_ratio fs
    overnight_last_trade_time ←
        read_field "ovn_last_trade_time" millis_json x.overnight_last_trade_time fs
    overnight_ask ← read_field "ovn_ask" (null_decimal_json r) x.overnight_ask fs
    overnight_ask_size ← read_field "ovn_ask_size" (null_decimal_json r) x.overnight_ask_size fs
    overnight_bid ← read_field "ovn_bid" (null_decimal_json r) x.overnight_bid fs
    overnight_bid_size ← read_field "ovn_bid_size" (null_decimal_json r) x.overnight_bid_size fs
    overnight_quote_time ← read_field "ovn_quote_time" millis_json x.overnight_quote_time fs
    ok (record {
      symbol = symbol;
      instrument_id = instrument_id;
      price = price;
      open_price = open_price;
      high = high;
      low = low;
      close = close;
      pre_close = pre_close;
      volume = volume;
      change = change;
      change_ratio = change_ratio;
      last_trade_time = last_trade_time;
      ask = ask;
      ask_size = ask_size;
      bid = bid;
      bid_size = bid_size;
      quote_time = quote_time;
      turnover = turnover;
      eps = eps;
      epsttm = epsttm;
      lot_size = lot_size;
      bps = bps;
      pe_ratio = pe_ratio;
      pb_ratio = pb_ratio;
      ps_ratio = ps_ratio;
      yield = yield;
      market_value = market_value;
      neg_market_value = neg_market_value;
      total_shares = total_shares;
      outstanding_shares = outstanding_shares;
      fifty_two_week_high = fifty_two_week_high;
      fifty_two_week_low = fifty_two_week_low;
      list_status = list_status;
      extended_last_price = extended_last_price;
      extended_high = extended_high;
      extended_low = extended_low;
      extended_change = extended_change;
      extended_change_ratio = extended_change_ratio;
      extended_volume = extended_volume;
      extended_last_trade_time = extended_last_trade_time;
      overnight_price = overnight_price;
      overnight_high = overnight_high;
      overnight_low = overnight_low;
      overnight_volume = overnight_volume;
      overnight_change = overnight_change;
      overnight_change_ratio = overnight_change_ratio;
      overnight_last_trade_time = overnight_last_trade_time;
      overnight_ask = overnight_ask;
      overnight_ask_size = overnight_ask_size;
      overnight_bid = overnight_bid;
      overnight_bid_size = overnight_bid_size;
      overnight_quote_time = overnight_quote_time;
    })

  unfoldable pub decode_level_order : LevelOrder D → Fields → Result (LevelOrder D)
  decode_level_order x fs = do
    mpid ← read_field "mpid" text_json x.mpid fs
    size ← read_field "size" (decimal_json r) x.size fs
    ok (record { mpid = mpid; size = size })

  unfoldable pub decode_level : Level D → Fields → Result (Level D)
  decode_level x fs = do
    price ← read_field "price" (decimal_json r) x.price fs
    size ← read_field "size" (decimal_json r) x.size fs
    orders ←
        read_field "order" (list_json (zero_level_order r) (struct_json decode_level_order))
          x.orders fs
    broker ←
        read_field "broker" (list_json zero_level_broker (struct_json decode_level_broker)) x.broker
          fs
    ok (record { price = price; size = size; orders = orders; broker = broker })

  unfoldable pub decode_depth : Depth D → Fields → Result (Depth D)
  decode_depth x fs = do
    symbol ← read_field "symbol" text_json x.symbol fs
    instrument_id ← read_field "instrument_id" text_json x.instrument_id fs
    quote_time ← read_field "quote_time" millis_json x.quote_time fs
    asks ← read_field "asks" (list_json (zero_level r) (struct_json decode_level)) x.asks fs
    bids ← read_field "bids" (list_json (zero_level r) (struct_json decode_level)) x.bids fs
    ok (record {
      symbol = symbol;
      instrument_id = instrument_id;
      quote_time = quote_time;
      asks = asks;
      bids = bids;
    })

  unfoldable pub decode_tick : Tick D → Fields → Result (Tick D)
  decode_tick x fs = do
    time ← read_field "time" millis_json x.time fs
    price ← read_field "price" (decimal_json r) x.price fs
    volume ← read_field "volume" (decimal_json r) x.volume fs
    side ← read_field "side" text_json x.side fs
    session ← read_field "trading_session" text_json x.session fs
    ok (record { time = time; price = price; volume = volume; side = side; session = session })

  unfoldable pub decode_ticks : Ticks D → Fields → Result (Ticks D)
  decode_ticks x fs = do
    symbol ← read_field "symbol" text_json x.symbol fs
    instrument_id ← read_field "instrument_id" text_json x.instrument_id fs
    ticks ← read_field "result" (list_json (zero_tick r) (struct_json decode_tick)) x.ticks fs
    ok (record { symbol = symbol; instrument_id = instrument_id; ticks = ticks })

  unfoldable pub decode_bar : Bar D T → Fields → Result (Bar D T)
  decode_bar x fs = do
    time ← read_field "time" (time_json r) x.time fs
    open_price ← read_field "open" (decimal_json r) x.open_price fs
    high ← read_field "high" (decimal_json r) x.high fs
    low ← read_field "low" (decimal_json r) x.low fs
    close ← read_field "close" (decimal_json r) x.close fs
    volume ← read_field "volume" (decimal_json r) x.volume fs
    session ← read_field "trading_session" text_json x.session fs
    ok (record {
      time = time;
      open_price = open_price;
      high = high;
      low = low;
      close = close;
      volume = volume;
      session = session;
    })

  unfoldable pub decode_bars : Bars D T → Fields → Result (Bars D T)
  decode_bars x fs = do
    symbol ← read_field "symbol" text_json x.symbol fs
    instrument_id ← read_field "instrument_id" text_json x.instrument_id fs
    bars ← read_field "result" (list_json (zero_bar r) (struct_json decode_bar)) x.bars fs
    ok (record { symbol = symbol; instrument_id = instrument_id; bars = bars })

  unfoldable pub decode_imbalance : Imbalance D → Fields → Result (Imbalance D)
  decode_imbalance x fs = do
    symbol ← read_field "symbol" text_json x.symbol fs
    instrument_id ← read_field "instrument_id" text_json x.instrument_id fs
    time ← read_field "imbalance_time" millis_json x.time fs
    type ← read_field "imbalance_action_type" text_json x.type fs
    ref_price ← read_field "imbalance_ref_price" (decimal_json r) x.ref_price fs
    near_price ← read_field "imbalance_near_price" (decimal_json r) x.near_price fs
    far_price ← read_field "imbalance_far_price" (decimal_json r) x.far_price fs
    ok (record {
      symbol = symbol;
      instrument_id = instrument_id;
      time = time;
      type = type;
      ref_price = ref_price;
      near_price = near_price;
      far_price = far_price;
    })

  unfoldable pub decode_imbalance_snapshot :
      ImbalanceSnapshot D → Fields → Result (ImbalanceSnapshot D)
  decode_imbalance_snapshot x fs = do
    imbalance ← decode_imbalance x.imbalance fs
    paired_shares ← read_field "paired_shares" (decimal_json r) x.paired_shares fs
    imbalance_shares ← read_field "imbalance_shares" (decimal_json r) x.imbalance_shares fs
    side ← read_field "imbalance_side" text_json x.side fs
    var_indicator ← read_field "imbalance_var_indicator" text_json x.var_indicator fs
    ok (record {
      imbalance = imbalance;
      paired_shares = paired_shares;
      imbalance_shares = imbalance_shares;
      side = side;
      var_indicator = var_indicator;
    })
