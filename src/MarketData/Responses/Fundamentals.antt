-- ===== src/MarketData/Responses/Fundamentals.antt =====
-- Fundamentals as they are decoded: marketdata/fundamentals.go.
pub mod Zero
pub mod Decoding
use webull.Common.{String, Bool, false, List, []}
use webull.Common.Int.{ℤ, pos}
use webull.Errors.{Result, ◌>>=◌, ok}
use webull.Trade.Decimal.{NullDecimal, absent}
use webull.Json.Times.{time_json}
use webull.Json.{
  Fields, read_field, text_json, bool_json, int_json, struct_json, list_json, Reader, decimal_json,
  null_decimal_json,
}

pub record CompanyProfile : Type 0 where
  pub symbol : String
  pub category : String
  pub company_name : String
  pub establish_date : String
  pub exchange : String
  pub profile : String
  pub employees : String
  pub address : String
  pub ceo : String
  pub industries : List String

pub record AnalystRating (D T : Type 0) : Type 0 where
  pub symbol : String
  pub category : String
  pub analysts : D
  pub strong_buy : D
  pub buy : D
  pub hold : D
  pub under_perform : D
  pub sell : D
  pub effective_from : T

pub record TargetPrice (D T : Type 0) : Type 0 where
  pub symbol : String
  pub category : String
  pub mean : D
  pub median : D
  pub low : D
  pub high : D
  pub currency : String
  pub effective_from : T

pub record CapitalFlow (D T : Type 0) : Type 0 where
  pub date : T
  pub large_in : D
  pub large_out : D
  pub medium_in : D
  pub medium_out : D
  pub small_in : D
  pub small_out : D

pub record Dividend (D T : Type 0) : Type 0 where
  pub symbol : String
  pub market : String
  pub currency : String
  pub amount : D
  pub type : String
  pub declare_date : T
  pub ex_dividend_date : T
  pub record_date : T
  pub pay_date : T

pub record Earnings (D T : Type 0) : Type 0 where
  pub fiscal_year : ℤ
  pub fiscal_period : ℤ
  pub currency : String
  pub expected_publish_date : T
  pub eps_actual : NullDecimal D
  pub eps_estimate : NullDecimal D
  pub revenue_actual : NullDecimal D
  pub revenue_estimate : NullDecimal D

pub record Filing (T : Type 0) : Type 0 where
  pub title : String
  pub url : String
  pub publish_date : T

pub record EpsForecast (D : Type 0) : Type 0 where
  pub fiscal_year : ℤ
  pub fiscal_period : ℤ
  pub actual : NullDecimal D
  pub estimate : NullDecimal D
  pub reported : Bool

pub record IndustryRank (D : Type 0) : Type 0 where
  pub symbol : String
  pub name : String
  pub rank : ℤ
  pub value : NullDecimal D

pub record IndustryComparison (D : Type 0) : Type 0 where
  pub fiscal_year : ℤ
  pub fiscal_period : ℤ
  pub industry_name : String
  pub metric : String
  pub companies : List (IndustryRank D)
