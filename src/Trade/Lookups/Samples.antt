-- ===== src/Trade/Lookups/Samples.antt =====
-- A look-up of two stocks, and the theorem on queries at it.
use webull.Common.{String, ◌≡◌, [], ◌∷◌}
use webull.Query.{IsQuery}
use webull.Trade.Lookups.{Lookup, stock_profiles, lookup_query}
use webull.Trade.Lookups.Tables.{lookup_query-present_values}

abbrev two_stocks : Lookup String
two_stocks = stock_profiles (record {
  symbols = "AAPL" ∷ "MSFT" ∷ [];
  status = "";
  sub_category = "";
  pagination_key = "913256135";
})

abbrev as_text : String → String
as_text s = s

lookup_query-present_values_example :
    (lookup_query as_text two_stocks
      ≡ ("category", "US_STOCK" ∷ [])
        ∷ ("symbols", "AAPL,MSFT" ∷ [])
        ∷ ("pagination_key", "913256135" ∷ [])
        ∷ [])
    × IsQuery (lookup_query as_text two_stocks)
lookup_query-present_values_example = lookup_query-present_values as_text two_stocks
