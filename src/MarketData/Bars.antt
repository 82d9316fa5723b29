-- ===== src/MarketData/Bars.antt =====
-- Bars of stocks: BarsRequest and Bars of marketdata/stocks.go. Times are in milliseconds since the epoch,
-- none for the zero time; encoding/json is a parameter.
use webull.Common.{String, Bool, true, false, Option, none, some, List, []}
use webull.Common.Int.{ℤ, pos}
use webull.Errors.{Result, ok, err}
use webull.Transport.Url.{Bytes}
use webull.Transport.Http.{Env, Net}
use webull.Query.{join_commas}
use webull.Json.{Json, Reader}
use webull.MarketData.{MarketClient, post_market}
use webull.MarketData.Requests.{market_category}
use webull.MarketData.Responses.Stocks.{Bars}
use webull.MarketData.Responses.Shapes.{bars_list}

pub record BarsRequest : Type 0 where
  pub symbols : List String
  pub category : String
  pub timespan : String
  pub count : ℤ
  pub completed : Bool
  pub sessions : List String
  pub start : Option ℤ
  pub end_time : Option ℤ

-- Numbers that are zero and texts that are empty are left out by the codec.
pub record BarsBody : Type 0 where
  pub symbols : List String
  pub category : String
  pub timespan : String
  pub count : ℤ
  pub real_time_required : Option Bool
  pub trading_sessions : String
  pub start_time : ℤ
  pub end_time : ℤ

abbrev pub unix_millis : Option ℤ → ℤ
unix_millis none = pos 0
unix_millis (some t) = t

abbrev unless_completed : Bool → Option Bool
unless_completed true = some false
unless_completed false = none

unfoldable pub bars_body : BarsRequest → BarsBody
bars_body r = record {
  symbols = r.symbols;
  category = market_category r.category;
  timespan = r.timespan;
  count = r.count;
  real_time_required = unless_completed r.completed;
  trading_sessions = join_commas r.sessions;
  start_time = unix_millis r.start;
  end_time = unix_millis r.end_time;
}

abbrev pub parsed_bars :
    {D T : Type 0} → Reader D T → (Bytes → Result Json) → Bytes → Result (List (Bars D T))
parsed_bars r parse b = elim (parse b) [ err e ↦ err e | ok v ↦ bars_list r v ]

abbrev or_no_bars {ℓ} : {A : Type ℓ} → Result (Option (List A)) → Result (List A)
or_no_bars (ok none) = ok []
or_no_bars (ok (some l)) = ok l
or_no_bars (err e) = err e

-- Bars
unfoldable pub bars :
    {D T : Type 0}
    → Reader D T
    → (BarsBody → Result Bytes)
    → (Bytes → Result Json)
    → Env
    → MarketClient
    → BarsRequest
    → Net
    → Result (List (Bars D T)) × Net
bars r marshal parse env c req net =
    let (l, n) =
      post_market marshal env c "/market-data/stocks/bars/list" (bars_body req)
        (parsed_bars r parse) net in
    (or_no_bars l, n)
