-- ===== src/MarketData/Responses/Screeners.antt =====
-- Screener rows and sectors as they are decoded: marketdata/screeners.go.
pub mod Zero
pub mod Decoding
use webull.Common.{String, List, []}
use webull.Errors.{Result, ◌>>=◌, ok}
use webull.Trade.Decimal.{NullDecimal, absent}
use webull.Json.Times.{time_json}
use webull.Json.{Fields, read_field, text_json, struct_json, list_json, Reader, null_decimal_json}

pub record ScreenerStock (D : Type 0) : Type 0 where
  pub instrument_id : String
  pub symbol : String
  pub name : String
  pub exchange_code : String
  pub currency_code : String
  pub currency : String
  pub pre_close : NullDecimal D
  pub open_price : NullDecimal D
  pub high : NullDecimal D
  pub low : NullDecimal D
  pub close : NullDecimal D
  pub price : NullDecimal D
  pub change : NullDecimal D
  pub change_ratio : NullDecimal D
  pub volume : NullDecimal D
  pub turnover : NullDecimal D
  pub turnover_rate : NullDecimal D
  pub market_value : NullDecimal D
  pub amplitude : NullDecimal D
  pub relative_volume : NullDecimal D
  pub pettm : NullDecimal D

pub record DividendStock (D T : Type 0) : Type 0 where
  pub instrument_id : String
  pub category : String
  pub symbol : String
  pub name : String
  pub exchange_code : String
  pub currency : String
  pub close : NullDecimal D
  pub change : NullDecimal D
  pub change_ratio : NullDecimal D
  pub price : NullDecimal D
  pub volume : NullDecimal D
  pub market_value : NullDecimal D
  pub turnover_rate : NullDecimal D
  pub amplitude : NullDecimal D
  pub high : NullDecimal D
  pub low : NullDecimal D
  pub turnover : NullDecimal D
  pub yield : NullDecimal D
  pub dividend : NullDecimal D
  pub ex_date : T
  pub pettm : NullDecimal D

pub record Week52Stock (D : Type 0) : Type 0 where
  pub instrument_id : String
  pub category : String
  pub symbol : String
  pub name : String
  pub exchange_code : String
  pub currency : String
  pub close : NullDecimal D
  pub change : NullDecimal D
  pub change_ratio : NullDecimal D
  pub price : NullDecimal D
  pub volume : NullDecimal D
  pub market_value : NullDecimal D
  pub turnover_rate : NullDecimal D
  pub amplitude : NullDecimal D
  pub high : NullDecimal D
  pub low : NullDecimal D
  pub turnover : NullDecimal D
  pub week1_price : NullDecimal D
  pub week52_price : NullDecimal D
  pub change_ratio52 : NullDecimal D
  pub pettm : NullDecimal D

pub record SectorLeader : Type 0 where
  pub instrument_id : String
  pub symbol : String
  pub name : String

pub record Sector (D : Type 0) : Type 0 where
  pub id : String
  pub name : String
  pub change_ratio : NullDecimal D
  pub volume : NullDecimal D
  pub market_value : NullDecimal D
  pub declined : NullDecimal D
  pub advanced : NullDecimal D
  pub flat : NullDecimal D
  pub leaders : List SectorLeader

pub record SectorStock (D : Type 0) : Type 0 where
  pub instrument_id : String
  pub category : String
  pub symbol : String
  pub name : String
  pub exchange_code : String
  pub currency : String
  pub close : NullDecimal D
  pub change_ratio : NullDecimal D
  pub price : NullDecimal D
  pub volume : NullDecimal D
  pub market_value : NullDecimal D
  pub turnover_rate : NullDecimal D
  pub amplitude : NullDecimal D
  pub high : NullDecimal D
  pub low : NullDecimal D

pub record SectorDetail (D : Type 0) : Type 0 where
  pub id : String
  pub name : String
  pub change_ratio : NullDecimal D
  pub declined : NullDecimal D
  pub advanced : NullDecimal D
  pub flat : NullDecimal D
  pub stocks : List (SectorStock D)
  pub pagination_key : String
