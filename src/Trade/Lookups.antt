-- ===== src/Trade/Lookups.antt =====
-- The look-ups of the trading client: accounts.go, instruments.go, futures.go and events.go of trade.
-- Times are given in the layout of the query, and as nothing where they are zero.
pub mod Tables
pub mod Samples
use webull.Common.{String, Bool, Option, none, some, List, [], ◌∷◌, if◌then◌else◌}
use webull.Common.Int.{ℤ}
use webull.Errors.{Result}
use webull.Transport.Url.{Bytes, Values}
use webull.Transport.Http.{Net}
use webull.Query.{set_value, set_list, set_number, set_flag}
use webull.Trade.Decimal.{NullDecimal, DecimalOps}
use webull.Trade.Client.{Wire, Client, fetch}

abbrev pub us_stock : String
us_stock = "US_STOCK"

abbrev pub us_option : String
us_option = "US_OPTION"

abbrev pub us_futures : String
us_futures = "US_FUTURES"

abbrev pub us_crypto : String
us_crypto = "US_CRYPTO"

pub record CashActivitiesRequest : Type 0 where
  pub account_id : String
  pub activity_types : List String
  pub start_time : Option String
  pub end_time : Option String
  pub last_activity_id : String
  pub page_size : ℤ

pub record StockProfilesRequest : Type 0 where
  pub symbols : List String
  pub status : String
  pub sub_category : String
  pub pagination_key : String

pub record CryptoProfilesRequest : Type 0 where
  pub symbols : List String
  pub status : String
  pub pagination_key : String

pub record OptionContractsRequest (D : Type 0) : Type 0 where
  pub option_symbols : List String
  pub underlying_symbols : List String
  pub status : String
  pub start_date : String
  pub end_date : String
  pub root_symbol : String
  pub option_type : String
  pub style : String
  pub strike_price_gte : NullDecimal D
  pub strike_price_lte : NullDecimal D
  pub pp_ind : Option Bool
  pub show_deliverables : Bool
  pub pagination_key : String

pub record FuturesContractsRequest : Type 0 where
  pub symbols : List String
  pub code : String
  pub status : String

pub record EventSeriesRequest : Type 0 where
  pub category : String
  pub symbols : List String
  pub pagination_key : String

pub record EventsRequest : Type 0 where
  pub series_symbol : String
  pub symbols : List String
  pub status : String

pub record EventMarketsRequest : Type 0 where
  pub series_symbol : String
  pub event_symbol : String
  pub symbols : List String
  pub expiration_date_after : String
  pub pagination_key : String

-- Balance and Positions
unfoldable pub account_query : String → Values
account_query account = set_value "account_id" account []

abbrev pub set_time : String → Option String → Values → Values
set_time k none q = q
set_time k (some t) q = set_value k t q

unfoldable pub cash_activities_query : CashActivitiesRequest → Values
cash_activities_query r = set_number "page_size" r.page_size (
    set_value "last_activity_id" r.last_activity_id (
      set_time "end_time" r.end_time (
        set_time "start_time" r.start_time
          (set_list "activity_types" r.activity_types (set_value "account_id" r.account_id [])))))

unfoldable pub stock_profiles_query : StockProfilesRequest → Values
stock_profiles_query r = set_value "pagination_key" r.pagination_key (
    set_value "sub_category" r.sub_category (
      set_value "status" r.status
        (set_list "symbols" r.symbols (set_value "category" us_stock []))))

unfoldable pub crypto_profiles_query : CryptoProfilesRequest → Values
crypto_profiles_query r =
    set_value "pagination_key" r.pagination_key (
      set_value "status" r.status
        (set_list "symbols" r.symbols (set_value "category" us_crypto [])))

unfoldable pub product_classes_query : Values
product_classes_query = set_value "category" us_futures []

unfoldable pub products_query : ℤ → Values
products_query class = set_number "product_class_id" class (set_value "category" us_futures [])

unfoldable pub futures_contracts_query : FuturesContractsRequest → Values
futures_contracts_query r =
    set_value "status" r.status
      (set_value "code" r.code (set_list "symbols" r.symbols (set_value "category" us_futures [])))

unfoldable pub event_series_query : EventSeriesRequest → Values
event_series_query r =
    set_value "pagination_key" r.pagination_key
      (set_list "symbols" r.symbols (set_value "category" r.category []))

unfoldable pub events_query : EventsRequest → Values
events_query r =
    set_value "status" r.status
      (set_list "symbols" r.symbols (set_value "series_symbol" r.series_symbol []))

unfoldable pub event_markets_query : EventMarketsRequest → Values
event_markets_query r = set_value "pagination_key" r.pagination_key (
    set_value "expiration_date_after" r.expiration_date_after (
      set_list "symbols" r.symbols
        (set_value "event_symbol" r.event_symbol (set_value "series_symbol" r.series_symbol []))))

-- The look-ups; an option's strike is a decimal with its text.
pub data Lookup (D : Type 0) : Type 0 where
  accounts event_categories product_classes : Lookup D
  balance positions : String → Lookup D
  cash_activities : CashActivitiesRequest → Lookup D
  stock_profiles : StockProfilesRequest → Lookup D
  crypto_profiles : CryptoProfilesRequest → Lookup D
  option_contracts : OptionContractsRequest D → Lookup D
  products : ℤ → Lookup D
  futures_contracts : FuturesContractsRequest → Lookup D
  event_series : EventSeriesRequest → Lookup D
  events : EventsRequest → Lookup D
  event_markets : EventMarketsRequest → Lookup D

-- if req.ShowDeliverables { … }
unfoldable pub set_shown : Bool → Values → Values
set_shown b q = if b then set_value "show_deliverables" "TRUE" q else q

module _ {D : Type 0} (to_text : D → String) where
  -- if req.StrikePrice….Valid { … }
  unfoldable pub set_bound : String → NullDecimal D → Values → Values
  set_bound k n q = if n.valid then set_value k (to_text n.decimal) q else q

  unfoldable pub option_contracts_query : OptionContractsRequest D → Values
  option_contracts_query r =
      let chain = set_value "category" us_option [] in
      let chosen =
        set_list "underlying_symbols" r.underlying_symbols
          (set_list "option_symbols" r.option_symbols chain) in
      let dated =
        set_value "end_date" r.end_date
          (set_value "start_date" r.start_date (set_value "status" r.status chosen)) in
      let kinds =
        set_value "style" r.style
          (set_value "option_type" r.option_type (set_value "root_symbol" r.root_symbol dated)) in
      let bounds =
        set_bound "strike_price_lte" r.strike_price_lte
          (set_bound "strike_price_gte" r.strike_price_gte kinds) in
      let flagged = set_flag "ppind" r.pp_ind bounds in
      set_value "pagination_key" r.pagination_key (set_shown r.show_deliverables flagged)

  unfoldable pub lookup_query : Lookup D → Values
  lookup_query accounts = []
  lookup_query event_categories = []
  lookup_query product_classes = product_classes_query
  lookup_query (balance account) = account_query account
  lookup_query (positions account) = account_query account
  lookup_query (cash_activities r) = cash_activities_query r
  lookup_query (stock_profiles r) = stock_profiles_query r
  lookup_query (crypto_profiles r) = crypto_profiles_query r
  lookup_query (option_contracts r) = option_contracts_query r
  lookup_query (products class) = products_query class
  lookup_query (futures_contracts r) = futures_contracts_query r
  lookup_query (event_series r) = event_series_query r
  lookup_query (events r) = events_query r
  lookup_query (event_markets r) = event_markets_query r

unfoldable pub lookup_path : {D : Type 0} → Lookup D → String
lookup_path accounts = "/trading/accounts/list"
lookup_path event_categories = "/trading/instruments/event-contracts/categories/list"
lookup_path product_classes = "/trading/instruments/futures/product-classes/list"
lookup_path (balance account) = "/trading/assets/balances/get"
lookup_path (positions account) = "/trading/assets/positions/list"
lookup_path (cash_activities r) = "/trading/activities/cash-activities/list"
lookup_path (stock_profiles r) = "/trading/instruments/stocks/profiles/list"
lookup_path (crypto_profiles r) = "/trading/instruments/crypto/profiles/list"
lookup_path (option_contracts r) = "/trading/instruments/options/contracts/list"
lookup_path (products class) = "/trading/instruments/futures/product-codes/list"
lookup_path (futures_contracts r) = "/trading/instruments/futures/contracts/list"
lookup_path (event_series r) = "/trading/instruments/event-contracts/series/list"
lookup_path (events r) = "/trading/instruments/event-contracts/events/list"
lookup_path (event_markets r) = "/trading/instruments/event-contracts/markets/list"

-- A look-up's call, whose result has the type that its decoder gives.
unfoldable pub look_up {ℓ} :
    {D T : Type 0} {A : Type ℓ}
    → Wire D T
    → Client
    → (D → String)
    → Lookup D
    → (Bytes → Result A)
    → Net
    → Result (Option A) × Net
look_up w c to_text l read net = fetch w c (lookup_path l) (lookup_query to_text l) read net
