-- ===== src/MarketData/Responses/Stocks/Zero.antt =====
-- Snapshots, depths, ticks, bars and imbalances of stocks: the values that decoding starts from (marketdata/stocks.go).
use webull.Common.{none, []}
use webull.Trade.Decimal.{absent}
use webull.Json.{Reader}
use webull.MarketData.Responses.Stocks.{
  Snapshot, LevelOrder, LevelBroker, Level, Depth, Tick, Ticks, Bar, Bars, Imbalance,
  ImbalanceSnapshot,
}

abbrev pub zero_level_broker : LevelBroker
zero_level_broker = record { id = ""; name = "" }

module _ {D T : Type 0} (r : Reader D T) where
  abbrev pub zero_snapshot : Snapshot D
  zero_snapshot = record {
    symbol = "";
    instrument_id = "";
    price = absent r.ops;
    open_price = absent r.ops;
    high = absent r.ops;
    low = absent r.ops;
    close = absent r.ops;
    pre_close = absent r.ops;
    volume = absent r.ops;
    change = absent r.ops;
    change_ratio = absent r.ops;
    last_trade_time = none;
    ask = absent r.ops;
    ask_size = absent r.ops;
    bid = absent r.ops;
    bid_size = absent r.ops;
    quote_time = none;
    turnover = absent r.ops;
    eps = absent r.ops;
    epsttm = absent r.ops;
    lot_size = absent r.ops;
    bps = absent r.ops;
    pe_ratio = absent r.ops;
    pb_ratio = absent r.ops;
    ps_ratio = absent r.ops;
    yield = absent r.ops;
    market_value = absent r.ops;
    neg_market_value = absent r.ops;
    total_shares = absent r.ops;
    outstanding_shares = absent r.ops;
    fifty_two_week_high = absent r.ops;
    fifty_two_week_low = absent r.ops;
    list_status = "";
    extended_last_price = absent r.ops;
    extended_high = absent r.ops;
    extended_low = absent r.ops;
    extended_change = absent r.ops;
    extended_change_ratio = absent r.ops;
    extended_volume = absent r.ops;
    extended_last_trade_time = none;
    overnight_price = absent r.ops;
    overnight_high = absent r.ops;
    overnight_low = absent r.ops;
    overnight_volume = absent r.ops;
    overnight_change = absent r.ops;
    overnight_change_ratio = absent r.ops;
    overnight_last_trade_time = none;
    overnight_ask = absent r.ops;
    overnight_ask_size = absent r.ops;
    overnight_bid = absent r.ops;
    overnight_bid_size = absent r.ops;
    overnight_quote_time = none;
  }

  abbrev pub zero_level_order : LevelOrder D
  zero_level_order = record { mpid = ""; size = r.ops.zero_value }

  abbrev pub zero_level : Level D
  zero_level = record {
    price = r.ops.zero_value;
    size = r.ops.zero_value;
    orders = [];
    broker = [];
  }

  abbrev pub zero_depth : Depth D
  zero_depth = record { symbol = ""; instrument_id = ""; quote_time = none; asks = []; bids = [] }

  abbrev pub zero_tick : Tick D
  zero_tick = record {
    time = none;
    price = r.ops.zero_value;
    volume = r.ops.zero_value;
    side = "";
    session = "";
  }

  abbrev pub zero_ticks : Ticks D
  zero_ticks = record { symbol = ""; instrument_id = ""; ticks = [] }

  abbrev pub zero_bar : Bar D T
  zero_bar = record {
    time = r.zero_time;
    open_price = r.ops.zero_value;
    high = r.ops.zero_value;
    low = r.ops.zero_value;
    close = r.ops.zero_value;
    volume = r.ops.zero_value;
    session = "";
  }

  abbrev pub zero_bars : Bars D T
  zero_bars = record { symbol = ""; instrument_id = ""; bars = [] }

  abbrev pub zero_imbalance : Imbalance D
  zero_imbalance = record {
    symbol = "";
    instrument_id = "";
    time = none;
    type = "";
    ref_price = r.ops.zero_value;
    near_price = r.ops.zero_value;
    far_price = r.ops.zero_value;
  }

  abbrev pub zero_imbalance_snapshot : ImbalanceSnapshot D
  zero_imbalance_snapshot = record {
    imbalance = zero_imbalance;
    paired_shares = r.ops.zero_value;
    imbalance_shares = r.ops.zero_value;
    side = "";
    var_indicator = "";
  }
