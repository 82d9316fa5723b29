-- ===== src/MarketData/Requests.antt =====
-- The query requests of the package marketdata: paths and parameters.
pub mod Calls
use webull.Common.{String, Bool, not, ◌&&◌, ◌||◌, List, [], ◌==◌, if◌then◌else◌}
use webull.Common.Int.{ℤ}
use webull.Transport.Url.{Values}
use webull.Query.{set_value, set_list, set_number, format_bool}

abbrev pub stock_category : String
stock_category = "US_STOCK"

abbrev pub option_category : String
option_category = "US_OPTION"

abbrev pub futures_category : String
futures_category = "US_FUTURES"

abbrev pub crypto_category : String
crypto_category = "US_CRYPTO"

abbrev pub event_category : String
event_category = "US_EVENT"

-- category
unfoldable pub market_category : String → String
market_category c = if c == "" then stock_category else c

pub record SnapshotsRequest : Type 0 where
  pub symbols : List String
  pub category : String
  pub extended_hours : Bool
  pub overnight : Bool

pub record DepthRequest : Type 0 where
  pub symbol : String
  pub category : String
  pub levels : ℤ
  pub overnight : Bool

pub record TicksRequest : Type 0 where
  pub symbol : String
  pub category : String
  pub count : ℤ
  pub sessions : List String

pub record FootprintsRequest : Type 0 where
  pub symbols : List String
  pub category : String
  pub timespan : String
  pub count : ℤ
  pub completed : Bool
  pub session : String

pub record ImbalanceRequest : Type 0 where
  pub symbol : String
  pub category : String
  pub imbalance_type : String

pub record AssetBarsRequest : Type 0 where
  pub symbols : List String
  pub timespan : String
  pub count : ℤ
  pub completed : Bool

pub record FinancialsRequest : Type 0 where
  pub symbol : String
  pub category : String
  pub financial_type : String
  pub count : ℤ

pub record GainersLosersRequest : Type 0 where
  pub period : String
  pub category : String
  pub sort_by : String
  pub direction : String

pub record TopActiveRequest : Type 0 where
  pub category : String
  pub metric : String
  pub sort_by : String
  pub direction : String

pub record HighDividendRequest : Type 0 where
  pub category : String
  pub sort_by : String
  pub direction : String

pub record Week52Request : Type 0 where
  pub category : String
  pub rank : String
  pub sort_by : String
  pub direction : String

pub record MarketSectorsRequest : Type 0 where
  pub category : String
  pub aggregate : String
  pub period : String
  pub direction : String
  pub pagination_key : String

pub record SectorDetailRequest : Type 0 where
  pub sector_id : String
  pub category : String
  pub period : String
  pub sort_by : String
  pub direction : String
  pub pagination_key : String

-- A flag that is sent only if it is set.
abbrev true_text : Bool → String
true_text b = if b then "true" else ""

unfoldable pub snapshots_query : SnapshotsRequest → Values
snapshots_query r = set_value "overnight_required" (true_text r.overnight) (
    set_value "extend_hour_required" (true_text r.extended_hours)
      (set_value "category" (market_category r.category) (set_list "symbols" r.symbols [])))

unfoldable pub depth_query : DepthRequest → Values
depth_query r = set_value "overnight_required" (format_bool r.overnight) (
    set_number "depth" r.levels
      (set_value "category" (market_category r.category) (set_value "symbol" r.symbol [])))

unfoldable pub ticks_query : TicksRequest → Values
ticks_query r = set_list "trading_sessions" r.sessions (
    set_number "count" r.count
      (set_value "category" (market_category r.category) (set_value "symbol" r.symbol [])))

-- footprintParams
unfoldable pub footprint_params : FootprintsRequest → String → Values
footprint_params r cat = set_value "trading_sessions" r.session (
    set_value "real_time_required" (format_bool (not r.completed)) (
      set_number "count" r.count (
        set_value "timespan" r.timespan
          (set_value "category" cat (set_list "symbols" r.symbols [])))))

-- imbalanceParams
unfoldable pub imbalance_params : ImbalanceRequest → Values
imbalance_params r =
    set_value "imbalance_action_type" r.imbalance_type
      (set_value "category" (market_category r.category) (set_value "symbol" r.symbol []))

-- The value of real_time_required, which is left out where it is empty.
unfoldable pub real_time : String → Bool → String
real_time cat completed =
    if cat == crypto_category || cat == event_category
    then format_bool (not completed)
    else if cat == option_category && completed
    then "false"
    else ""

-- AssetBarsRequest.params
unfoldable pub asset_bars_params : AssetBarsRequest → String → Values
asset_bars_params r cat = set_value "real_time_required" (real_time cat r.completed) (
    set_number "count" r.count (
      set_value "timespan" r.timespan (set_value "category" cat (set_list "symbols" r.symbols []))))

-- symbolParams
unfoldable pub symbol_params : String → String → Values
symbol_params symbol cat = set_value "category" (market_category cat) (set_value "symbol" symbol [])

-- FinancialsRequest.params
unfoldable pub financials_params : FinancialsRequest → Values
financials_params r =
    set_number "count" r.count
      (set_value "type" r.financial_type (symbol_params r.symbol r.category))

-- Snapshots of contracts that have their own category.
unfoldable pub asset_snapshots_query : List String → String → Values
asset_snapshots_query symbols cat = set_value "category" cat (set_list "symbols" symbols [])

unfoldable pub gainers_losers_query : GainersLosersRequest → Values
gainers_losers_query r = set_value "direction" r.direction (
    set_value "sort_by" r.sort_by
      (set_value "category" (market_category r.category) (set_value "rank_type" r.period [])))

unfoldable pub top_active_query : TopActiveRequest → Values
top_active_query r = set_value "direction" r.direction (
    set_value "sort_by" r.sort_by
      (set_value "rank_type" r.metric (set_value "category" (market_category r.category) [])))

unfoldable pub high_dividend_query : HighDividendRequest → Values
high_dividend_query r =
    set_value "direction" r.direction
      (set_value "sort_by" r.sort_by (set_value "category" (market_category r.category) []))

unfoldable pub week52_query : Week52Request → Values
week52_query r = set_value "direction" r.direction (
    set_value "sort_by" r.sort_by
      (set_value "rank_type" r.rank (set_value "category" (market_category r.category) [])))

unfoldable pub market_sectors_query : MarketSectorsRequest → Values
market_sectors_query r = set_value "pagination_key" r.pagination_key (
    set_value "direction" r.direction (
      set_value "period" r.period
        (set_value "agg_type" r.aggregate (set_value "category" (market_category r.category) []))))

unfoldable pub sector_detail_query : SectorDetailRequest → Values
sector_detail_query r = set_value "pagination_key" r.pagination_key (
    set_value "direction" r.direction (
      set_value "sort_by" r.sort_by (
        set_value "period" r.period (
          set_value "category" (market_category r.category)
            (set_value "sector_id" r.sector_id [])))))
