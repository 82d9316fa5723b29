-- ===== src/MarketData/Responses/Screeners/Decoding.antt =====
-- Screener rows and sectors: how each object is decoded (marketdata/screeners.go).
use webull.Errors.{Result, ◌>>=◌, ok}
use webull.Json.Times.{time_json}
use webull.Json.{Fields, read_field, text_json, struct_json, list_json, Reader, null_decimal_json}
use webull.MarketData.Responses.Screeners.{
  ScreenerStock, DividendStock, Week52Stock, SectorLeader, Sector, SectorStock, SectorDetail,
}
use webull.MarketData.Responses.Screeners.Zero.{zero_sector_leader, zero_sector_stock}

unfoldable pub decode_sector_leader : SectorLeader → Fields → Result SectorLeader
decode_sector_leader x fs = do
  instrument_id ← read_field "instrument_id" text_json x.instrument_id fs
  symbol ← read_field "symbol" text_json x.symbol fs
  name ← read_field "name" text_json x.name fs
  ok (record { instrument_id = instrument_id; symbol = symbol; name = name })

module _ {D T : Type 0} (r : Reader D T) where
  unfoldable pub decode_screener_stock : ScreenerStock D → Fields → Result (ScreenerStock D)
  decode_screener_stock x fs = do
    instrument_id ← read_field "instrument_id" text_json x.instrument_id fs
    symbol ← read_field "symbol" text_json x.symbol fs
    name ← read_field "name" text_json x.name fs
    exchange_code ← read_field "exchange_code" text_json x.exchange_code fs
    currency_code ← read_field "currency_code" text_json x.currency_code fs
    currency ← read_field "currency" text_json x.currency fs
    pre_close ← read_field "pre_close" (null_decimal_json r) x.pre_close fs
    open_price ← read_field "open" (null_decimal_json r) x.open_price fs
    high ← read_field "high" (null_decimal_json r) x.high fs
    low ← read_field "low" (null_decimal_json r) x.low fs
    close ← read_field "close" (null_decimal_json r) x.close fs
    price ← read_field "price" (null_decimal_json r) x.price fs
    change ← read_field "change" (null_decimal_json r) x.change fs
    change_ratio ← read_field "change_ratio" (null_decimal_json r) x.change_ratio fs
    volume ← read_field "volume" (null_decimal_json r) x.volume fs
    turnover ← read_field "turnover" (null_decimal_json r) x.turnover fs
    turnover_rate ← read_field "turnover_rate" (null_decimal_json r) x.turnover_rate fs
    market_value ← read_field "market_value" (null_decimal_json r) x.market_value fs
    amplitude ← read_field "amplitude" (null_decimal_json r) x.amplitude fs
    relative_volume ← read_field "relative_volume_10d" (null_decimal_json r) x.relative_volume fs
    pettm ← read_field "pe_ttm" (null_decimal_json r) x.pettm fs
    ok (record {
      instrument_id = instrument_id;
      symbol = symbol;
      name = name;
      exchange_code = exchange_code;
      currency_code = currency_code;
      currency = currency;
      pre_close = pre_close;
      open_price = open_price;
      high = high;
      low = low;
      close = close;
      price = price;
      change = change;
      change_ratio = change_ratio;
      volume = volume;
      turnover = turnover;
      turnover_rate = turnover_rate;
      market_value = market_value;
      amplitude = amplitude;
      relative_volume = relative_volume;
      pettm = pettm;
    })

  unfoldable pub decode_dividend_stock : DividendStock D T → Fields → Result (DividendStock D T)
  decode_dividend_stock x fs = do
    instrument_id ← read_field "instrument_id" text_json x.instrument_id fs
    category ← read_field "category" text_json x.category fs
    symbol ← read_field "symbol" text_json x.symbol fs
    name ← read_field "name" text_json x.name fs
    exchange_code ← read_field "exchange_code" text_json x.exchange_code fs
    currency ← read_field "currency" text_json x.currency fs
    close ← read_field "close" (null_decimal_json r) x.close fs
    change ← read_field "change" (null_decimal_json r) x.change fs
    change_ratio ← read_field "change_ratio" (null_decimal_json r) x.change_ratio fs
    price ← read_field "price" (null_decimal_json r) x.price fs
    volume ← read_field "volume" (null_decimal_json r) x.volume fs
    market_value ← read_field "market_value" (null_decimal_json r) x.market_value fs
    turnover_rate ← read_field "turnover_rate" (null_decimal_json r) x.turnover_rate fs
    amplitude ← read_field "amplitude" (null_decimal_json r) x.amplitude fs
    high ← read_field "high" (null_decimal_json r) x.high fs
    low ← read_field "low" (null_decimal_json r) x.low fs
    turnover ← read_field "turnover" (null_decimal_json r) x.turnover fs
    yield ← read_field "yield" (null_decimal_json r) x.yield fs
    dividend ← read_field "dividend" (null_decimal_json r) x.dividend fs
    ex_date ← read_field "ex_date" (time_json r) x.ex_date fs
    pettm ← read_field "pe_ttm" (null_decimal_json r) x.pettm fs
    ok (record {
      instrument_id = instrument_id;
      category = category;
      symbol = symbol;
      name = name;
      exchange_code = exchange_code;
      currency = currency;
      close = close;
      change = change;
      change_ratio = change_ratio;
      price = price;
      volume = volume;
      market_value = market_value;
      turnover_rate = turnover_rate;
      amplitude = amplitude;
      high = high;
      low = low;
      turnover = turnover;
      yield = yield;
      dividend = dividend;
      ex_date = ex_date;
      pettm = pettm;
    })

  unfoldable pub decode_week52_stock : Week52Stock D → Fields → Result (Week52Stock D)
  decode_week52_stock x fs = do
    instrument_id ← read_field "instrument_id" text_json x.instrument_id fs
    category ← read_field "category" text_json x.category fs
    symbol ← read_field "symbol" text_json x.symbol fs
    name ← read_field "name" text_json x.name fs
    exchange_code ← read_field "exchange_code" text_json x.exchange_code fs
    currency ← read_field "currency" text_json x.currency fs
    close ← read_field "close" (null_decimal_json r) x.close fs
    change ← read_field "change" (null_decimal_json r) x.change fs
    change_ratio ← read_field "change_ratio" (null_decimal_json r) x.change_ratio fs
    price ← read_field "price" (null_decimal_json r) x.price fs
    volume ← read_field "volume" (null_decimal_json r) x.volume fs
    market_value ← read_field "market_value" (null_decimal_json r) x.market_value fs
    turnover_rate ← read_field "turnover_rate" (null_decimal_json r) x.turnover_rate fs
    amplitude ← read_field "amplitude" (null_decimal_json r) x.amplitude fs
    high ← read_field "high" (null_decimal_json r) x.high fs
    low ← read_field "low" (null_decimal_json r) x.low fs
    turnover ← read_field "turnover" (null_decimal_json r) x.turnover fs
    week1_price ← read_field "price_1w" (null_decimal_json r) x.week1_price fs
    week52_price ← read_field "price_52w" (null_decimal_json r) x.week52_price fs
    change_ratio52 ← read_field "change_ratio_52w" (null_decimal_json r) x.change_ratio52 fs
    pettm ← read_field "pe_ttm" (null_decimal_json r) x.pettm fs
    ok (record {
      instrument_id = instrument_id;
      category = category;
      symbol = symbol;
      name = name;
      exchange_code = exchange_code;
      currency = currency;
      close = close;
      change = change;
      change_ratio = change_ratio;
      price = price;
      volume = volume;
      market_value = market_value;
      turnover_rate = turnover_rate;
      amplitude = amplitude;
      high = high;
      low = low;
      turnover = turnover;
      week1_price = week1_price;
      week52_price = week52_price;
      change_ratio52 = change_ratio52;
      pettm = pettm;
    })

  unfoldable pub decode_sector : Sector D → Fields → Result (Sector D)
  decode_sector x fs = do
    id ← read_field "id" text_json x.id fs
    name ← read_field "name" text_json x.name fs
    change_ratio ← read_field "change_ratio" (null_decimal_json r) x.change_ratio fs
    volume ← read_field "volume" (null_decimal_json r) x.volume fs
    market_value ← read_field "market_value" (null_decimal_json r) x.market_value fs
    declined ← read_field "declined" (null_decimal_json r) x.declined fs
    advanced ← read_field "advanced" (null_decimal_json r) x.advanced fs
    flat ← read_field "flat" (null_decimal_json r) x.flat fs
    leaders ←
        read_field "data" (list_json zero_sector_leader (struct_json decode_sector_leader))
          x.leaders fs
    ok (record {
      id = id;
      name = name;
      change_ratio = change_ratio;
      volume = volume;
      market_value = market_value;
      declined = declined;
      advanced = advanced;
      flat = flat;
      leaders = leaders;
    })

  unfoldable pub decode_sector_stock : SectorStock D → Fields → Result (SectorStock D)
  decode_sector_stock x fs = do
    instrument_id ← read_field "instrument_id" text_json x.instrument_id fs
    category ← read_field "category" text_json x.category fs
    symbol ← read_field "symbol" text_json x.symbol fs
    name ← read_field "name" text_json x.name fs
    exchange_code ← read_field "exchange_code" text_json x.exchange_code fs
    currency ← read_field "currency" text_json x.currency fs
    close ← read_field "close" (null_decimal_json r) x.close fs
    change_ratio ← read_field "change_ratio" (null_decimal_json r) x.change_ratio fs
    price ← read_field "price" (null_decimal_json r) x.price fs
    volume ← read_field "volume" (null_decimal_json r) x.volume fs
    market_value ← read_field "market_value" (null_decimal_json r) x.market_value fs
    turnover_rate ← read_field "turnover_rate" (null_decimal_json r) x.turnover_rate fs
    amplitude ← read_field "amplitude" (null_decimal_json r) x.amplitude fs
    high ← read_field "high" (null_decimal_json r) x.high fs
    low ← read_field "low" (null_decimal_json r) x.low fs
    ok (record {
      instrument_id = instrument_id;
      category = category;
      symbol = symbol;
      name = name;
      exchange_code = exchange_code;
      currency = currency;
      close = close;
      change_ratio = change_ratio;
      price = price;
      volume = volume;
      market_value = market_value;
      turnover_rate = turnover_rate;
      amplitude = amplitude;
      high = high;
      low = low;
    })

  unfoldable pub decode_sector_detail : SectorDetail D → Fields → Result (SectorDetail D)
  decode_sector_detail x fs = do
    id ← read_field "id" text_json x.id fs
    name ← read_field "name" text_json x.name fs
    change_ratio ← read_field "change_ratio" (null_decimal_json r) x.change_ratio fs
    declined ← read_field "declined" (null_decimal_json r) x.declined fs
    advanced ← read_field "advanced" (null_decimal_json r) x.advanced fs
    flat ← read_field "flat" (null_decimal_json r) x.flat fs
    stocks ←
        read_field "data" (list_json (zero_sector_stock r) (struct_json decode_sector_stock))
          x.stocks fs
    pagination_key ← read_field "pagination_key" text_json x.pagination_key fs
    ok (record {
      id = id;
      name = name;
      change_ratio = change_ratio;
      declined = declined;
      advanced = advanced;
      flat = flat;
      stocks = stocks;
      pagination_key = pagination_key;
    })
