-- ===== src/Trade/Lookups/Tables.antt =====
-- The parameters of each look-up as a table, in the order of accounts.go, instruments.go, futures.go and
-- events.go of trade, and that the queries are these.
use webull.Common.{
  String, ◌≡◌, refl, ◌∙◌, Bool, true, false, Option, none, some, [], ◌∷◌, if◌then◌else◌,
}
use webull.Transport.Url.{Values}
use webull.Query.{IsQuery, set_value}
use webull.Query.Tables.{
  Table, text_value, list_value, number_value, flag_value, put_option, set_value-put, set_list-put,
  set_number-put, set_flag-put, fill_table, present_values, is_table, is_table_sound,
  fill_table-present_values, present_values-IsQuery,
}
use webull.Trade.Decimal.{NullDecimal}
use webull.Trade.Lookups.{
  account_query, set_time, cash_activities_query, stock_profiles_query, crypto_profiles_query,
  product_classes_query, products_query, futures_contracts_query, event_series_query, events_query,
  event_markets_query, Lookup, accounts, event_categories, product_classes, balance, positions,
  cash_activities, stock_profiles, crypto_profiles, option_contracts, products, futures_contracts,
  event_series, events, event_markets, set_bound, set_shown, option_contracts_query, lookup_query,
}

abbrev time_value : Option String → Option String
time_value none = none
time_value (some t) = text_value t

set_time-put :
    (k : String) (o : Option String) (q : Values) → set_time k o q ≡ put_option k (time_value o) q
set_time-put k none q = refl
set_time-put k (some t) q = set_value-put k t q

abbrev shown_value : Bool → Option String
shown_value true = some "TRUE"
shown_value false = none

shown-put :
    (b : Bool) (q : Values) → set_shown b q ≡ put_option "show_deliverables" (shown_value b) q
unfolding set_shown
shown-put true q = set_value-put "show_deliverables" "TRUE" q
shown-put false q = refl

ruleset setters = (set_value-put, set_list-put, set_number-put, set_flag-put)

module _ {D : Type 0} (to_text : D → String) where
  abbrev bound_value : NullDecimal D → Option String
  bound_value n = if n.valid then text_value (to_text n.decimal) else none

  set_bound-put :
      (k : String) (n : NullDecimal D) (q : Values)
      → set_bound to_text k n q ≡ put_option k (bound_value n) q
  unfolding set_bound
  set_bound-put k n q = by_valid n.valid
    where
      by_valid :
          (b : Bool)
          → (if b then set_value k (to_text n.decimal) q else q)
            ≡ put_option k (if b then text_value (to_text n.decimal) else none) q
      by_valid true = set_value-put k (to_text n.decimal) q
      by_valid false = refl

  -- What each look-up asks for.
  abbrev pub lookup_table : Lookup D → Table
  lookup_table accounts = []
  lookup_table event_categories = []
  lookup_table product_classes = ("category", some "US_FUTURES") ∷ []
  lookup_table (balance account) = ("account_id", text_value account) ∷ []
  lookup_table (positions account) = ("account_id", text_value account) ∷ []
  lookup_table (cash_activities r) =
      ("account_id", text_value r.account_id)
      ∷ ("activity_types", list_value r.activity_types)
      ∷ ("start_time", time_value r.start_time)
      ∷ ("end_time", time_value r.end_time)
      ∷ ("last_activity_id", text_value r.last_activity_id)
      ∷ ("page_size", number_value r.page_size)
      ∷ []
  lookup_table (stock_profiles r) =
      ("category", some "US_STOCK")
      ∷ ("symbols", list_value r.symbols)
      ∷ ("status", text_value r.status)
      ∷ ("sub_category", text_value r.sub_category)
      ∷ ("pagination_key", text_value r.pagination_key)
      ∷ []
  lookup_table (crypto_profiles r) =
      ("category", some "US_CRYPTO")
      ∷ ("symbols", list_value r.symbols)
      ∷ ("status", text_value r.status)
      ∷ ("pagination_key", text_value r.pagination_key)
      ∷ []
  lookup_table (option_contracts r) =
      ("category", some "US_OPTION")
      ∷ ("option_symbols", list_value r.option_symbols)
      ∷ ("underlying_symbols", list_value r.underlying_symbols)
      ∷ ("status", text_value r.status)
      ∷ ("start_date", text_value r.start_date)
      ∷ ("end_date", text_value r.end_date)
      ∷ ("root_symbol", text_value r.root_symbol)
      ∷ ("option_type", text_value r.option_type)
      ∷ ("style", text_value r.style)
      ∷ ("strike_price_gte", bound_value r.strike_price_gte)
      ∷ ("strike_price_lte", bound_value r.strike_price_lte)
      ∷ ("ppind", flag_value r.pp_ind)
      ∷ ("show_deliverables", shown_value r.show_deliverables)
      ∷ ("pagination_key", text_value r.pagination_key)
      ∷ []
  lookup_table (products class) =
      ("category", some "US_FUTURES") ∷ ("product_class_id", number_value class) ∷ []
  lookup_table (futures_contracts r) =
      ("category", some "US_FUTURES")
      ∷ ("symbols", list_value r.symbols)
      ∷ ("code", text_value r.code)
      ∷ ("status", text_value r.status)
      ∷ []
  lookup_table (event_series r) =
      ("category", text_value r.category)
      ∷ ("symbols", list_value r.symbols)
      ∷ ("pagination_key", text_value r.pagination_key)
      ∷ []
  lookup_table (events r) =
      ("series_symbol", text_value r.series_symbol)
      ∷ ("symbols", list_value r.symbols)
      ∷ ("status", text_value r.status)
      ∷ []
  lookup_table (event_markets r) =
      ("series_symbol", text_value r.series_symbol)
      ∷ ("event_symbol", text_value r.event_symbol)
      ∷ ("symbols", list_value r.symbols)
      ∷ ("expiration_date_after", text_value r.expiration_date_after)
      ∷ ("pagination_key", text_value r.pagination_key)
      ∷ []

  lookup_query-fill_table : (l : Lookup D) → lookup_query to_text l ≡ fill_table (lookup_table l) []
  unfolding lookup_query account_query cash_activities_query stock_profiles_query
      crypto_profiles_query product_classes_query products_query futures_contracts_query
      event_series_query events_query event_markets_query option_contracts_query
  lookup_query-fill_table accounts = refl
  lookup_query-fill_table event_categories = refl
  lookup_query-fill_table product_classes = simp setters
  lookup_query-fill_table (balance account) = simp setters
  lookup_query-fill_table (positions account) = simp setters
  lookup_query-fill_table (cash_activities r) = simp (setters, set_time-put)
  lookup_query-fill_table (stock_profiles r) = simp setters
  lookup_query-fill_table (crypto_profiles r) = simp setters
  lookup_query-fill_table (option_contracts r) = simp (setters, set_bound-put, shown-put)
  lookup_query-fill_table (products class) = simp setters
  lookup_query-fill_table (futures_contracts r) = simp setters
  lookup_query-fill_table (event_series r) = simp setters
  lookup_query-fill_table (events r) = simp setters
  lookup_query-fill_table (event_markets r) = simp setters

  lookup_table-IsTable : (l : Lookup D) → is_table (lookup_table l) ≡ true
  lookup_table-IsTable accounts = refl
  lookup_table-IsTable event_categories = refl
  lookup_table-IsTable product_classes = refl
  lookup_table-IsTable (balance account) = refl
  lookup_table-IsTable (positions account) = refl
  lookup_table-IsTable (cash_activities r) = refl
  lookup_table-IsTable (stock_profiles r) = refl
  lookup_table-IsTable (crypto_profiles r) = refl
  lookup_table-IsTable (option_contracts r) = refl
  lookup_table-IsTable (products class) = refl
  lookup_table-IsTable (futures_contracts r) = refl
  lookup_table-IsTable (event_series r) = refl
  lookup_table-IsTable (events r) = refl
  lookup_table-IsTable (event_markets r) = refl

  -- The query of every look-up holds just those parameters of its table that have a value, in the order of
  -- the table, and each once.
  pub lookup_query-present_values :
      (l : Lookup D)
      → (lookup_query to_text l ≡ present_values (lookup_table l))
        × IsQuery (lookup_query to_text l)
  lookup_query-present_values l =
      let d = is_table_sound (lookup_table l) (lookup_table-IsTable l) in
      let e = lookup_query-fill_table l ∙ fill_table-present_values (lookup_table l) d in
      (e, rw e (present_values-IsQuery (lookup_table l) d))
