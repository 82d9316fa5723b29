-- ===== src/MarketData/Responses/Screeners/Zero.antt =====
-- Screener rows and sectors: the values that decoding starts from (marketdata/screeners.go).
use webull.Common.{[]}
use webull.Trade.Decimal.{absent}
use webull.Json.{Reader}
use webull.MarketData.Responses.Screeners.{
  ScreenerStock, DividendStock, Week52Stock, SectorLeader, Sector, SectorStock, SectorDetail,
}

abbrev pub zero_sector_leader : SectorLeader
zero_sector_leader = record { instrument_id = ""; symbol = ""; name = "" }

module _ {D T : Type 0} (r : Reader D T) where
  abbrev pub zero_screener_stock : ScreenerStock D
  zero_screener_stock = record {
    instrument_id = "";
    symbol = "";
    name = "";
    exchange_code = "";
    currency_code = "";
    currency = "";
    pre_close = absent r.ops;
    open_price = absent r.ops;
    high = absent r.ops;
    low = absent r.ops;
    close = absent r.ops;
    price = absent r.ops;
    change = absent r.ops;
    change_ratio = absent r.ops;
    volume = absent r.ops;
    turnover = absent r.ops;
    turnover_rate = absent r.ops;
    market_value = absent r.ops;
    amplitude = absent r.ops;
    relative_volume = absent r.ops;
    pettm = absent r.ops;
  }

  abbrev pub zero_dividend_stock : DividendStock D T
  zero_dividend_stock = record {
    instrument_id = "";
    category = "";
    symbol = "";
    name = "";
    exchange_code = "";
    currency = "";
    close = absent r.ops;
    change = absent r.ops;
    change_ratio = absent r.ops;
    price = absent r.ops;
    volume = absent r.ops;
    market_value = absent r.ops;
    turnover_rate = absent r.ops;
    amplitude = absent r.ops;
    high = absent r.ops;
    low = absent r.ops;
    turnover = absent r.ops;
    yield = absent r.ops;
    dividend = absent r.ops;
    ex_date = r.zero_time;
    pettm = absent r.ops;
  }

  abbrev pub zero_week52_stock : Week52Stock D
  zero_week52_stock = record {
    instrument_id = "";
    category = "";
    symbol = "";
    name = "";
    exchange_code = "";
    currency = "";
    close = absent r.ops;
    change = absent r.ops;
    change_ratio = absent r.ops;
    price = absent r.ops;
    volume = absent r.ops;
    market_value = absent r.ops;
    turnover_rate = absent r.ops;
    amplitude = absent r.ops;
    high = absent r.ops;
    low = absent r.ops;
    turnover = absent r.ops;
    week1_price = absent r.ops;
    week52_price = absent r.ops;
    change_ratio52 = absent r.ops;
    pettm = absent r.ops;
  }

  abbrev pub zero_sector : Sector D
  zero_sector = record {
    id = "";
    name = "";
    change_ratio = absent r.ops;
    volume = absent r.ops;
    market_value = absent r.ops;
    declined = absent r.ops;
    advanced = absent r.ops;
    flat = absent r.ops;
    leaders = [];
  }

  abbrev pub zero_sector_stock : SectorStock D
  zero_sector_stock = record {
    instrument_id = "";
    category = "";
    symbol = "";
    name = "";
    exchange_code = "";
    currency = "";
    close = absent r.ops;
    change_ratio = absent r.ops;
    price = absent r.ops;
    volume = absent r.ops;
    market_value = absent r.ops;
    turnover_rate = absent r.ops;
    amplitude = absent r.ops;
    high = absent r.ops;
    low = absent r.ops;
  }

  abbrev pub zero_sector_detail : SectorDetail D
  zero_sector_detail = record {
    id = "";
    name = "";
    change_ratio = absent r.ops;
    declined = absent r.ops;
    advanced = absent r.ops;
    flat = absent r.ops;
    stocks = [];
    pagination_key = "";
  }
