-- ===== src/Trade/EventContracts.antt =====
-- Event contracts as they are decoded: trade/events.go.
use webull.Common.{String, Bool, false, List, []}
use webull.Common.Int.{ℤ, pos}
use webull.Errors.{Result, ◌>>=◌, ok}
use webull.Json.{
  Fields, read_field, text_json, bool_json, int_json, struct_json, list_json, Reader, decimal_json,
}

pub record EventCategory : Type 0 where
  pub id : ℤ
  pub code : String
  pub name : String

pub record EventSeries : Type 0 where
  pub series_id : String
  pub symbol : String
  pub name : String
  pub category : String
  pub frequency : String

pub record EventSeriesPage : Type 0 where
  pub series : List EventSeries
  pub pagination_key : String

pub record Event : Type 0 where
  pub series_id : String
  pub symbol : String
  pub name : String
  pub short_name : String
  pub status : String
  pub strike_date : String
  pub strike_period : String
  pub mutually_exclusive : Bool

pub record PriceRange (D : Type 0) : Type 0 where
  pub start : D
  pub end : D
  pub step : D

pub record EventMarket (D : Type 0) : Type 0 where
  pub series_id : String
  pub series_symbol : String
  pub series_name : String
  pub event_symbol : String
  pub event_name : String
  pub instrument_id : String
  pub symbol : String
  pub name : String
  pub yes_condition : String
  pub status : String
  pub tradable_status : String
  pub can_close_early : Bool
  pub fractionable : Bool
  pub last_trading_date : String
  pub expected_exp_date : String
  pub latest_exp_date : String
  pub payout_date : String
  pub price_ranges : List (PriceRange D)

pub record EventMarketsPage (D : Type 0) : Type 0 where
  pub markets : List (EventMarket D)
  pub pagination_key : String

abbrev pub zero_event_category : EventCategory
zero_event_category = record { id = pos 0; code = ""; name = "" }

unfoldable pub decode_event_category : EventCategory → Fields → Result EventCategory
decode_event_category x fs = do
  id ← read_field "category_id" int_json x.id fs
  code ← read_field "category_code" text_json x.code fs
  name ← read_field "category_name" text_json x.name fs
  ok (record { id = id; code = code; name = name })

abbrev pub zero_event_series : EventSeries
zero_event_series = record { series_id = ""; symbol = ""; name = ""; category = ""; frequency = "" }

unfoldable pub decode_event_series : EventSeries → Fields → Result EventSeries
decode_event_series x fs = do
  series_id ← read_field "series_id" text_json x.series_id fs
  symbol ← read_field "symbol" text_json x.symbol fs
  name ← read_field "name" text_json x.name fs
  category ← read_field "category" text_json x.category fs
  frequency ← read_field "frequency" text_json x.frequency fs
  ok (record {
    series_id = series_id;
    symbol = symbol;
    name = name;
    category = category;
    frequency = frequency;
  })

abbrev pub zero_event_series_page : EventSeriesPage
zero_event_series_page = record { series = []; pagination_key = "" }

unfoldable pub decode_event_series_page : EventSeriesPage → Fields → Result EventSeriesPage
decode_event_series_page x fs = do
  series ←
      read_field "data" (list_json zero_event_series (struct_json decode_event_series)) x.series fs
  pagination_key ← read_field "pagination_key" text_json x.pagination_key fs
  ok (record { series = series; pagination_key = pagination_key })

abbrev pub zero_event : Event
zero_event = record {
  series_id = "";
  symbol = "";
  name = "";
  short_name = "";
  status = "";
  strike_date = "";
  strike_period = "";
  mutually_exclusive = false;
}

unfoldable pub decode_event : Event → Fields → Result Event
decode_event x fs = do
  series_id ← read_field "series_id" text_json x.series_id fs
  symbol ← read_field "symbol" text_json x.symbol fs
  name ← read_field "name" text_json x.name fs
  short_name ← read_field "short_name" text_json x.short_name fs
  status ← read_field "status" text_json x.status fs
  strike_date ← read_field "strike_date" text_json x.strike_date fs
  strike_period ← read_field "strike_period" text_json x.strike_period fs
  mutually_exclusive ← read_field "mutually_exclusive" bool_json x.mutually_exclusive fs
  ok (record {
    series_id = series_id;
    symbol = symbol;
    name = name;
    short_name = short_name;
    status = status;
    strike_date = strike_date;
    strike_period = strike_period;
    mutually_exclusive = mutually_exclusive;
  })

module _ {D T : Type 0} (r : Reader D T) where
  abbrev pub zero_price_range : PriceRange D
  zero_price_range = record {
    start = r.ops.zero_value;
    end = r.ops.zero_value;
    step = r.ops.zero_value;
  }

  unfoldable pub decode_price_range : PriceRange D → Fields → Result (PriceRange D)
  decode_price_range x fs = do
    start ← read_field "start" (decimal_json r) x.start fs
    end ← read_field "end" (decimal_json r) x.end fs
    step ← read_field "step" (decimal_json r) x.step fs
    ok (record { start = start; end = end; step = step })

  abbrev pub zero_event_market : EventMarket D
  zero_event_market = record {
    series_id = "";
    series_symbol = "";
    series_name = "";
    event_symbol = "";
    event_name = "";
    instrument_id = "";
    symbol = "";
    name = "";
    yes_condition = "";
    status = "";
    tradable_status = "";
    can_close_early = false;
    fractionable = false;
    last_trading_date = "";
    expected_exp_date = "";
    latest_exp_date = "";
    payout_date = "";
    price_ranges = [];
  }

  unfoldable pub decode_event_market : EventMarket D → Fields → Result (EventMarket D)
  decode_event_market x fs = do
    series_id ← read_field "series_id" text_json x.series_id fs
    series_symbol ← read_field "series_symbol" text_json x.series_symbol fs
    series_name ← read_field "series_name" text_json x.series_name fs
    event_symbol ← read_field "event_symbol" text_json x.event_symbol fs
    event_name ← read_field "event_name" text_json x.event_name fs
    instrument_id ← read_field "instrument_id" text_json x.instrument_id fs
    symbol ← read_field "symbol" text_json x.symbol fs
    name ← read_field "name" text_json x.name fs
    yes_condition ← read_field "yes_condition" text_json x.yes_condition fs
    status ← read_field "status" text_json x.status fs
    tradable_status ← read_field "tradable_status" text_json x.tradable_status fs
    can_close_early ← read_field "can_close_early" bool_json x.can_close_early fs
    fractionable ← read_field "fractionable" bool_json x.fractionable fs
    last_trading_date ← read_field "last_trading_date" text_json x.last_trading_date fs
    expected_exp_date ← read_field "expected_exp_date" text_json x.expected_exp_date fs
    latest_exp_date ← read_field "latest_exp_date" text_json x.latest_exp_date fs
    payout_date ← read_field "payout_date" text_json x.payout_date fs
    price_ranges ←
        read_field "price_ranges" (list_json zero_price_range (struct_json decode_price_range))
          x.price_ranges fs
    ok (record {
      series_id = series_id;
      series_symbol = series_symbol;
      series_name = series_name;
      event_symbol = event_symbol;
      event_name = event_name;
      instrument_id = instrument_id;
      symbol = symbol;
      name = name;
      yes_condition = yes_condition;
      status = status;
      tradable_status = tradable_status;
      can_close_early = can_close_early;
      fractionable = fractionable;
      last_trading_date = last_trading_date;
      expected_exp_date = expected_exp_date;
      latest_exp_date = latest_exp_date;
      payout_date = payout_date;
      price_ranges = price_ranges;
    })

  abbrev pub zero_event_markets_page : EventMarketsPage D
  zero_event_markets_page = record { markets = []; pagination_key = "" }

  unfoldable pub decode_event_markets_page :
      EventMarketsPage D → Fields → Result (EventMarketsPage D)
  decode_event_markets_page x fs = do
    markets ←
        read_field "data" (list_json zero_event_market (struct_json decode_event_market)) x.markets
          fs
    pagination_key ← read_field "pagination_key" text_json x.pagination_key fs
    ok (record { markets = markets; pagination_key = pagination_key })
