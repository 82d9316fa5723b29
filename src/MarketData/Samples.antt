-- ===== src/MarketData/Samples.antt =====
-- A sample call and a sample change of a watchlist, and the theorems on them at these values.
use webull.Common.Int.{pos}
use webull.Common.{◌≡◌, false, ◌==◌, ℕ, true, some, [], ◌∷◌, codes}
use webull.Errors.{ok}
use webull.Transport.Samples.{sample_doer}
use webull.MarketData.{MarketClient}
use webull.MarketData.Watchlists.{WatchlistEntry, WatchlistWire}
use webull.MarketData.Watchlists.Confirmed.{Change, add}
use webull.MarketData.Requests.Calls.{MarketCall, query_of, depth}
use webull.MarketData.Categorized.{or_us_stock, HasCategory, call-IsCategorized}

abbrev book : MarketCall
book = depth (record { symbol = "AAPL"; category = ""; levels = pos 1; overnight = false })

call-IsCategorized_example :
    HasCategory "US_STOCK" (query_of book) × ((or_us_stock "" == "") ≡ false)
call-IsCategorized_example = call-IsCategorized book

abbrev market_client : MarketClient
market_client = record { doer = sample_doer; host = "api.webull.com" }

abbrev watchlist_wire : WatchlistWire ℕ ℕ
watchlist_wire = record {
  marshal = λ b. ok (codes "{}");
  read_envelope = λ s. ok (some true);
  read_id = λ s. ok "";
  read_lists = λ s. ok [];
  read_instruments = λ s. ok [];
}

abbrev entry : WatchlistEntry
entry = record { symbol = "AAPL"; category = ""; sort = pos 0 }

abbrev addition : Change
addition = add "7" (entry ∷ [])
