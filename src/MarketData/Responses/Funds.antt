-- ===== src/MarketData/Responses/Funds.antt =====
-- Funds as they are decoded: marketdata/funds.go.
pub mod Zero
pub mod Decoding
use webull.Common.{String, List, []}
use webull.Common.Int.{ℤ, pos}
use webull.Errors.{Result, ◌>>=◌, ok}
use webull.Trade.Decimal.{NullDecimal, absent}
use webull.Json.Times.{time_json}
use webull.Json.{
  Fields, read_field, text_json, int_json, struct_json, list_json, Reader, decimal_json,
  null_decimal_json,
}

pub record FundManager (D T : Type 0) : Type 0 where
  pub name : String
  pub title : String
  pub start_date : T
  pub end_date : T
  pub incumbent : ℤ
  pub tenure_return : NullDecimal D
  pub tenure_years : NullDecimal D
  pub tenure_days : ℤ

pub record FundBrief (D T : Type 0) : Type 0 where
  pub name : String
  pub launch_date : T
  pub benchmark : String
  pub investment_objective : String
  pub aum : NullDecimal D
  pub issuer : String
  pub custodian : String
  pub managers : List (FundManager D T)

pub record FundAsset (D : Type 0) : Type 0 where
  pub value : NullDecimal D
  pub ratio : NullDecimal D

pub record FundAllocation (D T : Type 0) : Type 0 where
  pub date : T
  pub aum : NullDecimal D
  pub cash : FundAsset D
  pub bond : FundAsset D
  pub stock : FundAsset D
  pub preferred : FundAsset D
  pub convertible : FundAsset D
  pub other : FundAsset D

pub record FundDividend (D T : Type 0) : Type 0 where
  pub declare_date : T
  pub ex_dividend_date : T
  pub record_date : T
  pub pay_date : T
  pub per_share : D

pub record FundDividendsPage (D T : Type 0) : Type 0 where
  pub dividends : List (FundDividend D T)
  pub pagination_key : String

pub record FundFile (T : Type 0) : Type 0 where
  pub name : String
  pub url : String
  pub publish_date : T
  pub type : ℤ

pub record FundHolding (D T : Type 0) : Type 0 where
  pub symbol : String
  pub name : String
  pub held_percent : NullDecimal D
  pub held_change_percent : NullDecimal D
  pub maturity_date : T
  pub update_time : T

pub record FundNetValue (D T : Type 0) : Type 0 where
  pub date : T
  pub currency : String
  pub net_value : D

pub record FundPerformance (D T : Type 0) : Type 0 where
  pub currency : String
  pub end_date : T
  pub return1_m : NullDecimal D
  pub return3_m : NullDecimal D
  pub return6_m : NullDecimal D
  pub return1_y : NullDecimal D
  pub return3_y : NullDecimal D
  pub return5_y : NullDecimal D
  pub return10_y : NullDecimal D
  pub since_inception : NullDecimal D

pub record FundRating (T : Type 0) : Type 0 where
  pub date : T
  pub agency : String
  pub cycle : String
  pub rating : ℤ

pub record FundSplit (D T : Type 0) : Type 0 where
  pub date : T
  pub type : String
  pub ratio : String
  pub from : D
  pub to : D
