-- ===== src/Trade/Profiles.antt =====
-- Stock and crypto profiles and option contracts as they are decoded: trade/instruments.go.
pub mod Zero
pub mod Decoding
use webull.Common.{String, Bool, false, List, []}
use webull.Errors.{Result, ◌>>=◌, ok}
use webull.Trade.Decimal.{NullDecimal, absent}
use webull.Json.{
  Fields, read_field, text_json, bool_json, struct_json, list_json, Reader, decimal_json,
  null_decimal_json,
}

pub record StockProfile (D : Type 0) : Type 0 where
  pub name : String
  pub instrument_id : String
  pub exchange_code : String
  pub category : String
  pub symbol : String
  pub status : String
  pub sub_category : String
  pub currency : String
  pub shortable : Bool
  pub fractionable : Bool
  pub marginable : Bool
  pub overnight_trading_supported : Bool
  pub easy_to_borrow : Bool
  pub crypto_etf : Bool
  pub single_stock_etf : Bool
  pub inverse_etf : Bool
  pub margin_requirement_long : NullDecimal D
  pub margin_requirement_short : NullDecimal D
  pub intraday_margin_long : NullDecimal D
  pub intraday_margin_short : NullDecimal D
  pub maintenance_margin_long : NullDecimal D
  pub maintenance_margin_short : NullDecimal D
  pub lot_size : NullDecimal D
  pub etf_leveraged_flag : String
  pub etf_leveraged_factor : NullDecimal D

pub record StockProfilesPage (D : Type 0) : Type 0 where
  pub profiles : List (StockProfile D)
  pub pagination_key : String

pub record CryptoProfile (D : Type 0) : Type 0 where
  pub name : String
  pub instrument_id : String
  pub exchange_code : String
  pub category : String
  pub symbol : String
  pub status : String
  pub currency : String
  pub min_trade_amount : NullDecimal D
  pub max_trade_amount : NullDecimal D
  pub min_trade_quantity : NullDecimal D
  pub max_trade_quantity : NullDecimal D
  pub price_step : NullDecimal D
  pub lot_size : NullDecimal D

pub record CryptoProfilesPage (D : Type 0) : Type 0 where
  pub profiles : List (CryptoProfile D)
  pub pagination_key : String

pub record OptionDeliverable (D : Type 0) : Type 0 where
  pub asset_type : String
  pub symbol : String
  pub instrument_id : String
  pub amount : D
  pub allocation_percentage : D
  pub settlement_type : String
  pub settlement_method : String
  pub settlement_status : String

pub record OptionContract (D : Type 0) : Type 0 where
  pub instrument_id : String
  pub symbol : String
  pub status : String
  pub tradable_status : String
  pub expiration_date : String
  pub init_expiration_date : String
  pub root_symbol : String
  pub underlying_symbol : String
  pub underlying_instrument_id : String
  pub underlying_type : String
  pub option_type : String
  pub style : String
  pub strike_price : D
  pub multiplier : D
  pub settlement_method : String
  pub expired_cycle : String
  pub pp_ind : Bool
  pub currency : String
  pub def_type : String
  pub listed_exchanges : List String
  pub deliverables : List (OptionDeliverable D)

pub record OptionContractsPage (D : Type 0) : Type 0 where
  pub contracts : List (OptionContract D)
  pub pagination_key : String
