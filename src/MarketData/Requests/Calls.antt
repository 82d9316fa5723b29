-- ===== src/MarketData/Requests/Calls.antt =====
-- Every call of the package marketdata that sends a query: its path and its parameters.
use Prim.Native.String.{◌++◌ as ◌<>◌}
use webull.Common.{String, List}
use webull.Common.Int.{ℤ}
use webull.Transport.Url.{Values}
use webull.Query.{set_value, set_number}
use webull.MarketData.Requests.{
  option_category, futures_category, crypto_category, event_category, market_category,
  SnapshotsRequest, DepthRequest, TicksRequest, FootprintsRequest, ImbalanceRequest,
  AssetBarsRequest, FinancialsRequest, GainersLosersRequest, TopActiveRequest, HighDividendRequest,
  Week52Request, MarketSectorsRequest, SectorDetailRequest, snapshots_query, depth_query,
  ticks_query, footprint_params, imbalance_params, asset_bars_params, symbol_params,
  financials_params, asset_snapshots_query, gainers_losers_query, top_active_query,
  high_dividend_query, week52_query, market_sectors_query, sector_detail_query,
}

-- The calls that take a symbol and a category only.
pub data SymbolCall : Type 0 where
  company_profile analyst_rating target_price dividend_calendar earnings_calendar : SymbolCall
  filings forecast_eps financial_alert : SymbolCall
  fund_brief fund_allocations fund_files fund_holdings fund_performance fund_ratings fund_splits :
      SymbolCall

unfoldable pub symbol_path : SymbolCall → String
symbol_path company_profile = "/market-data/fundamentals/company-profiles/get"
symbol_path analyst_rating = "/market-data/fundamentals/analysis/ratings/get"
symbol_path target_price = "/market-data/fundamentals/analysis/target-prices/get"
symbol_path dividend_calendar = "/market-data/fundamentals/dividend-calendars/list"
symbol_path earnings_calendar = "/market-data/fundamentals/earnings-calendars/list"
symbol_path filings = "/market-data/fundamentals/filings/list"
symbol_path forecast_eps = "/market-data/fundamentals/forecast-eps/get"
symbol_path financial_alert = "/market-data/fundamentals/financial-alerts/get"
symbol_path fund_brief = "/market-data/fundamentals/fund-brief/get"
symbol_path fund_allocations = "/market-data/fundamentals/fund-allocations/get"
symbol_path fund_files = "/market-data/fundamentals/fund-files/get"
symbol_path fund_holdings = "/market-data/fundamentals/fund-holdings/get"
symbol_path fund_performance = "/market-data/fundamentals/fund-performances/get"
symbol_path fund_ratings = "/market-data/fundamentals/fund-ratings/get"
symbol_path fund_splits = "/market-data/fundamentals/fund-splits/get"

pub data ReportCall : Type 0 where
  balance_sheets income_statements cash_flows indicators : ReportCall

unfoldable pub report_path : ReportCall → String
report_path balance_sheets = "/market-data/fundamentals/balance-sheets/get"
report_path income_statements = "/market-data/fundamentals/income-statements/get"
report_path cash_flows = "/market-data/fundamentals/cash-flows/get"
report_path indicators = "/market-data/fundamentals/indicators/get"

-- The classes of contracts that have a category of their own.
pub data Asset : Type 0 where
  option futures crypto event_contract : Asset

abbrev pub asset_category : Asset → String
asset_category option = option_category
asset_category futures = futures_category
asset_category crypto = crypto_category
asset_category event_contract = event_category

unfoldable pub asset_path : Asset → String
asset_path option = "/market-data/options/"
asset_path futures = "/market-data/futures/"
asset_path crypto = "/market-data/crypto/"
asset_path event_contract = "/market-data/event-contracts/"

pub data MarketCall : Type 0 where
  snapshots : SnapshotsRequest → MarketCall
  depth : DepthRequest → MarketCall
  ticks : TicksRequest → MarketCall
  footprints : FootprintsRequest → MarketCall
  imbalance_bars imbalance_snapshot : ImbalanceRequest → MarketCall
  asset_snapshots : Asset → List String → MarketCall
  asset_ticks asset_depth : Asset → String → ℤ → MarketCall
  asset_bars : Asset → AssetBarsRequest → MarketCall
  futures_footprints : FootprintsRequest → MarketCall
  by_symbol : SymbolCall → String → String → MarketCall
  financial_report : ReportCall → FinancialsRequest → MarketCall
  capital_flows : String → String → ℤ → MarketCall
  industry_comparison : String → String → String → MarketCall
  fund_dividends : String → String → String → MarketCall
  fund_net_values : String → String → String → ℤ → MarketCall
  gainers_losers : GainersLosersRequest → MarketCall
  top_active : TopActiveRequest → MarketCall
  high_dividend : HighDividendRequest → MarketCall
  week52_high_low : Week52Request → MarketCall
  market_sectors : MarketSectorsRequest → MarketCall
  sector_detail : SectorDetailRequest → MarketCall

unfoldable pub asset_ticks_query : Asset → String → ℤ → Values
asset_ticks_query a symbol n = set_number "count" n (symbol_params symbol (asset_category a))

unfoldable pub asset_depth_query : Asset → String → ℤ → Values
asset_depth_query a symbol n = set_number "depth" n (symbol_params symbol (asset_category a))

unfoldable pub capital_flows_query : String → String → ℤ → Values
capital_flows_query symbol cat n = set_number "count" n (symbol_params symbol cat)

unfoldable pub industry_comparison_query : String → String → String → Values
industry_comparison_query symbol cat metric = set_value "sort_by" metric (symbol_params symbol cat)

unfoldable pub fund_dividends_query : String → String → String → Values
fund_dividends_query symbol cat key = set_value "pagination_key" key (symbol_params symbol cat)

unfoldable pub fund_net_values_query : String → String → String → ℤ → Values
fund_net_values_query symbol cat date n =
    set_number "count" n (set_value "last_date" date (symbol_params symbol cat))

-- Options, futures and event contracts have ticks, futures and event contracts have depths; the package has
-- no call for the other combinations. Dates are texts, empty for the zero time.
unfoldable pub query_of : MarketCall → Values
query_of (snapshots r) = snapshots_query r
query_of (depth r) = depth_query r
query_of (ticks r) = ticks_query r
query_of (footprints r) = footprint_params r (market_category r.category)
query_of (imbalance_bars r) = imbalance_params r
query_of (imbalance_snapshot r) = imbalance_params r
query_of (asset_snapshots a symbols) = asset_snapshots_query symbols (asset_category a)
query_of (asset_ticks a symbol n) = asset_ticks_query a symbol n
query_of (asset_depth a symbol n) = asset_depth_query a symbol n
query_of (asset_bars a r) = asset_bars_params r (asset_category a)
query_of (futures_footprints r) = footprint_params r futures_category
query_of (by_symbol c symbol cat) = symbol_params symbol cat
query_of (financial_report k r) = financials_params r
query_of (capital_flows symbol cat n) = capital_flows_query symbol cat n
query_of (industry_comparison symbol cat metric) = industry_comparison_query symbol cat metric
query_of (fund_dividends symbol cat key) = fund_dividends_query symbol cat key
query_of (fund_net_values symbol cat date n) = fund_net_values_query symbol cat date n
query_of (gainers_losers r) = gainers_losers_query r
query_of (top_active r) = top_active_query r
query_of (high_dividend r) = high_dividend_query r
query_of (week52_high_low r) = week52_query r
query_of (market_sectors r) = market_sectors_query r
query_of (sector_detail r) = sector_detail_query r

unfoldable pub path_of : MarketCall → String
path_of (snapshots r) = "/market-data/stocks/snapshots/list"
path_of (depth r) = "/market-data/stocks/depths/list"
path_of (ticks r) = "/market-data/stocks/ticks/list"
path_of (footprints r) = "/market-data/stocks/footprints/list"
path_of (imbalance_bars r) = "/market-data/stocks/noii-bars/list"
path_of (imbalance_snapshot r) = "/market-data/stocks/noii-snapshots/list"
path_of (asset_snapshots a symbols) = asset_path a <> "snapshots/list"
path_of (asset_ticks a symbol n) = asset_path a <> "ticks/list"
path_of (asset_depth a symbol n) = asset_path a <> "depths/list"
path_of (asset_bars a r) = asset_path a <> "bars/list"
path_of (futures_footprints r) = "/market-data/futures/footprints/list"
path_of (by_symbol c symbol cat) = symbol_path c
path_of (financial_report k r) = report_path k
path_of (capital_flows symbol cat n) = "/market-data/fundamentals/capital-flows/get"
path_of (industry_comparison symbol cat metric) =
    "/market-data/fundamentals/industry-comparisons/get"
path_of (fund_dividends symbol cat key) = "/market-data/fundamentals/fund-dividends/get"
path_of (fund_net_values symbol cat date n) = "/market-data/fundamentals/fund-net-values/get"
path_of (gainers_losers r) = "/market-data/screeners/gainers-losers/list"
path_of (top_active r) = "/market-data/screeners/top-actives/list"
path_of (high_dividend r) = "/market-data/screeners/high-dividend-ranks/list"
path_of (week52_high_low r) = "/market-data/screeners/week52-high-low/list"
path_of (market_sectors r) = "/market-data/screeners/market-sectors/list"
path_of (sector_detail r) = "/market-data/screeners/market-sectors/get"
