-- ===== src/MarketData/Categorized.antt =====
-- Which category a market-data call names (package marketdata).
use webull.Common.{
  if◌then◌else◌, String, ◌≡◌, refl, ◌∙◌, inl, inr, false, some, List, [], ◌∷◌, ◌==◌, Bool-cases,
}
use webull.Common.Int.{ℤ}
use webull.Transport.Url.{Values}
use webull.Query.{find_values, IsQuery, set_value, set_list, set_number}
use webull.Query.Laws.{
  set_value-IsQuery, set_list-IsQuery, set_number-IsQuery, find-set_value_other,
  find-set_list_other, find-set_number_other, find-set_value,
}
use webull.MarketData.Requests.{
  market_category, FootprintsRequest, AssetBarsRequest, snapshots_query, depth_query, ticks_query,
  footprint_params, imbalance_params, asset_bars_params, symbol_params, financials_params,
  asset_snapshots_query, gainers_losers_query, top_active_query, high_dividend_query, week52_query,
  market_sectors_query, sector_detail_query,
}
use webull.MarketData.Requests.Calls.{
  Asset, asset_category, MarketCall, asset_ticks_query, asset_depth_query, capital_flows_query,
  industry_comparison_query, fund_dividends_query, fund_net_values_query, query_of, option, futures,
  crypto, event_contract, snapshots, depth, ticks, footprints, imbalance_bars, imbalance_snapshot,
  asset_snapshots, asset_ticks, asset_depth, asset_bars, futures_footprints, by_symbol,
  financial_report, capital_flows, industry_comparison, fund_dividends, fund_net_values,
  gainers_losers, top_active, high_dividend, week52_high_low, market_sectors, sector_detail,
}

-- A key stands once, and the category is `c`.
abbrev pub HasCategory : String → Values → Type 0
HasCategory c q = IsQuery q × (find_values "category" q ≡ some (c ∷ []))

then_value :
    (c k v : String) (q : Values)
    → (k == "category") ≡ false
    → HasCategory c q
    → HasCategory c (set_value k v q)
then_value c k v q n (m, e) =
    (set_value-IsQuery k v q m, find-set_value_other "category" k v q n ∙ e)

then_list :
    (c k : String) (vs : List String) (q : Values)
    → (k == "category") ≡ false
    → HasCategory c q
    → HasCategory c (set_list k vs q)
then_list c k vs q n (m, e) =
    (set_list-IsQuery k vs q m, find-set_list_other "category" k vs q n ∙ e)

then_number :
    (c k : String) (i : ℤ) (q : Values)
    → (k == "category") ≡ false
    → HasCategory c q
    → HasCategory c (set_number k i q)
then_number c k i q n (m, e) =
    (set_number-IsQuery k i q m, find-set_number_other "category" k i q n ∙ e)

set_category :
    (c : String) (q : Values)
    → (c == "") ≡ false
    → IsQuery q
    → HasCategory c (set_value "category" c q)
set_category c q n m = (set_value-IsQuery "category" c q m, find-set_value "category" c q n)

market_category-full : (c : String) → (market_category c == "") ≡ false
unfolding market_category
market_category-full c = elim (Bool-cases (c == "")) [ inl e ↦ rw e refl | inr e ↦ rw e e ]

asset_category-full : (a : Asset) → (asset_category a == "") ≡ false
asset_category-full option = refl
asset_category-full futures = refl
asset_category-full crypto = refl
asset_category-full event_contract = refl

symbols_of : (vs : List String) → IsQuery (set_list "symbols" vs [])
symbols_of vs = set_list-IsQuery "symbols" vs [] tt

one_value : (k v : String) → IsQuery (set_value k v [])
one_value k v = set_value-IsQuery k v [] tt

-- A request's category, or US stocks where it leaves it out.
abbrev pub or_us_stock : String → String
or_us_stock c = if c == "" then "US_STOCK" else c

abbrev pub asset_name : Asset → String
asset_name option = "US_OPTION"
asset_name futures = "US_FUTURES"
asset_name crypto = "US_CRYPTO"
asset_name event_contract = "US_EVENT"

-- The category that a call is about: that of the request, stocks where it leaves it out, or that of the
-- endpoint.
abbrev pub category_of : MarketCall → String
category_of (snapshots r) = or_us_stock r.category
category_of (depth r) = or_us_stock r.category
category_of (ticks r) = or_us_stock r.category
category_of (footprints r) = or_us_stock r.category
category_of (imbalance_bars r) = or_us_stock r.category
category_of (imbalance_snapshot r) = or_us_stock r.category
category_of (asset_snapshots a symbols) = asset_name a
category_of (asset_ticks a symbol n) = asset_name a
category_of (asset_depth a symbol n) = asset_name a
category_of (asset_bars a r) = asset_name a
category_of (futures_footprints r) = "US_FUTURES"
category_of (by_symbol c symbol cat) = or_us_stock cat
category_of (financial_report k r) = or_us_stock r.category
category_of (capital_flows symbol cat n) = or_us_stock cat
category_of (industry_comparison symbol cat metric) = or_us_stock cat
category_of (fund_dividends symbol cat key) = or_us_stock cat
category_of (fund_net_values symbol cat date n) = or_us_stock cat
category_of (gainers_losers r) = or_us_stock r.category
category_of (top_active r) = or_us_stock r.category
category_of (high_dividend r) = or_us_stock r.category
category_of (week52_high_low r) = or_us_stock r.category
category_of (market_sectors r) = or_us_stock r.category
category_of (sector_detail r) = or_us_stock r.category

-- The category that the code sends.
abbrev sent_category : MarketCall → String
sent_category (snapshots r) = market_category r.category
sent_category (depth r) = market_category r.category
sent_category (ticks r) = market_category r.category
sent_category (footprints r) = market_category r.category
sent_category (imbalance_bars r) = market_category r.category
sent_category (imbalance_snapshot r) = market_category r.category
sent_category (asset_snapshots a symbols) = asset_category a
sent_category (asset_ticks a symbol n) = asset_category a
sent_category (asset_depth a symbol n) = asset_category a
sent_category (asset_bars a r) = asset_category a
sent_category (futures_footprints r) = "US_FUTURES"
sent_category (by_symbol c symbol cat) = market_category cat
sent_category (financial_report k r) = market_category r.category
sent_category (capital_flows symbol cat n) = market_category cat
sent_category (industry_comparison symbol cat metric) = market_category cat
sent_category (fund_dividends symbol cat key) = market_category cat
sent_category (fund_net_values symbol cat date n) = market_category cat
sent_category (gainers_losers r) = market_category r.category
sent_category (top_active r) = market_category r.category
sent_category (high_dividend r) = market_category r.category
sent_category (week52_high_low r) = market_category r.category
sent_category (market_sectors r) = market_category r.category
sent_category (sector_detail r) = market_category r.category

asset_name_lem : (a : Asset) → asset_name a ≡ asset_category a
asset_name_lem option = refl
asset_name_lem futures = refl
asset_name_lem crypto = refl
asset_name_lem event_contract = refl

category_of-sent_category : (m : MarketCall) → category_of m ≡ sent_category m
unfolding market_category
category_of-sent_category (snapshots r) = refl
category_of-sent_category (depth r) = refl
category_of-sent_category (ticks r) = refl
category_of-sent_category (footprints r) = refl
category_of-sent_category (imbalance_bars r) = refl
category_of-sent_category (imbalance_snapshot r) = refl
category_of-sent_category (asset_snapshots a symbols) = asset_name_lem a
category_of-sent_category (asset_ticks a symbol n) = asset_name_lem a
category_of-sent_category (asset_depth a symbol n) = asset_name_lem a
category_of-sent_category (asset_bars a r) = asset_name_lem a
category_of-sent_category (futures_footprints r) = refl
category_of-sent_category (by_symbol c symbol cat) = refl
category_of-sent_category (financial_report k r) = refl
category_of-sent_category (capital_flows symbol cat n) = refl
category_of-sent_category (industry_comparison symbol cat metric) = refl
category_of-sent_category (fund_dividends symbol cat key) = refl
category_of-sent_category (fund_net_values symbol cat date n) = refl
category_of-sent_category (gainers_losers r) = refl
category_of-sent_category (top_active r) = refl
category_of-sent_category (high_dividend r) = refl
category_of-sent_category (week52_high_low r) = refl
category_of-sent_category (market_sectors r) = refl
category_of-sent_category (sector_detail r) = refl

ruleset categorized = (
  then_value, then_list, then_number, set_category, market_category-full, asset_category-full,
  symbols_of, one_value,
)

footprint-HasCategory :
    (r : FootprintsRequest) (c : String) → (c == "") ≡ false → HasCategory c (footprint_params r c)
unfolding footprint_params
footprint-HasCategory r c n = search categorized depth 8

asset_bars-HasCategory :
    (r : AssetBarsRequest) (c : String) → (c == "") ≡ false → HasCategory c (asset_bars_params r c)
unfolding asset_bars_params
asset_bars-HasCategory r c n = search categorized depth 8

symbol-HasCategory : (s c : String) → HasCategory (market_category c) (symbol_params s c)
unfolding symbol_params
symbol-HasCategory s c = search categorized

asset_symbol-HasCategory :
    (s : String) (a : Asset) → HasCategory (asset_category a) (symbol_params s (asset_category a))
unfolding symbol_params market_category
asset_symbol-HasCategory s option = search categorized
asset_symbol-HasCategory s futures = search categorized
asset_symbol-HasCategory s crypto = search categorized
asset_symbol-HasCategory s event_contract = search categorized

ruleset calls = (
  categorized, footprint-HasCategory, asset_bars-HasCategory, symbol-HasCategory,
  asset_symbol-HasCategory,
)

call-HasCategory : (m : MarketCall) → HasCategory (sent_category m) (query_of m)
unfolding query_of snapshots_query depth_query ticks_query imbalance_params asset_snapshots_query
    financials_params gainers_losers_query top_active_query high_dividend_query week52_query
    market_sectors_query sector_detail_query asset_ticks_query asset_depth_query capital_flows_query
    industry_comparison_query fund_dividends_query fund_net_values_query
call-HasCategory (snapshots r) = search calls depth 8
call-HasCategory (depth r) = search calls depth 8
call-HasCategory (ticks r) = search calls depth 8
call-HasCategory (footprints r) = search calls depth 8
call-HasCategory (imbalance_bars r) = search calls depth 8
call-HasCategory (imbalance_snapshot r) = search calls depth 8
call-HasCategory (asset_snapshots a symbols) = search calls depth 8
call-HasCategory (asset_ticks a symbol n) = search calls depth 8
call-HasCategory (asset_depth a symbol n) = search calls depth 8
call-HasCategory (asset_bars a r) = search calls depth 8
call-HasCategory (futures_footprints r) = search calls depth 8
call-HasCategory (by_symbol c symbol cat) = search calls depth 8
call-HasCategory (financial_report k r) = search calls depth 8
call-HasCategory (capital_flows symbol cat n) = search calls depth 8
call-HasCategory (industry_comparison symbol cat metric) = search calls depth 8
call-HasCategory (fund_dividends symbol cat key) = search calls depth 8
call-HasCategory (fund_net_values symbol cat date n) = search calls depth 8
call-HasCategory (gainers_losers r) = search calls depth 8
call-HasCategory (top_active r) = search calls depth 8
call-HasCategory (high_dividend r) = search calls depth 8
call-HasCategory (week52_high_low r) = search calls depth 8
call-HasCategory (market_sectors r) = search calls depth 8
call-HasCategory (sector_detail r) = search calls depth 8

category-full : (m : MarketCall) → (sent_category m == "") ≡ false
category-full (snapshots r) = market_category-full r.category
category-full (depth r) = market_category-full r.category
category-full (ticks r) = market_category-full r.category
category-full (footprints r) = market_category-full r.category
category-full (imbalance_bars r) = market_category-full r.category
category-full (imbalance_snapshot r) = market_category-full r.category
category-full (asset_snapshots a symbols) = asset_category-full a
category-full (asset_ticks a symbol n) = asset_category-full a
category-full (asset_depth a symbol n) = asset_category-full a
category-full (asset_bars a r) = asset_category-full a
category-full (futures_footprints r) = refl
category-full (by_symbol c symbol cat) = market_category-full cat
category-full (financial_report k r) = market_category-full r.category
category-full (capital_flows symbol cat n) = market_category-full cat
category-full (industry_comparison symbol cat metric) = market_category-full cat
category-full (fund_dividends symbol cat key) = market_category-full cat
category-full (fund_net_values symbol cat date n) = market_category-full cat
category-full (gainers_losers r) = market_category-full r.category
category-full (top_active r) = market_category-full r.category
category-full (high_dividend r) = market_category-full r.category
category-full (week52_high_low r) = market_category-full r.category
category-full (market_sectors r) = market_category-full r.category
category-full (sector_detail r) = market_category-full r.category

-- Every query of a market-data call has each of its parameters once, and names as its category that of the
-- endpoint (US_OPTION, US_FUTURES, US_CRYPTO or US_EVENT), or that of the request, which is US_STOCK where
-- the caller leaves it out; it is never empty.
pub call-IsCategorized :
    (m : MarketCall) → HasCategory (category_of m) (query_of m) × ((category_of m == "") ≡ false)
call-IsCategorized m = rw (category_of-sent_category m) (call-HasCategory m, category-full m)
