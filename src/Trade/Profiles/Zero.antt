-- ===== src/Trade/Profiles/Zero.antt =====
-- Stock and crypto profiles and option contracts: the values that decoding starts from (trade/instruments.go).
use webull.Common.{false, []}
use webull.Trade.Decimal.{absent}
use webull.Json.{Reader}
use webull.Trade.Profiles.{
  StockProfile, StockProfilesPage, CryptoProfile, CryptoProfilesPage, OptionDeliverable,
  OptionContract, OptionContractsPage,
}

module _ {D T : Type 0} (r : Reader D T) where
  abbrev pub zero_stock_profile : StockProfile D
  zero_stock_profile = record {
    name = "";
    instrument_id = "";
    exchange_code = "";
    category = "";
    symbol = "";
    status = "";
    sub_category = "";
    currency = "";
    shortable = false;
    fractionable = false;
    marginable = false;
    overnight_trading_supported = false;
    easy_to_borrow = false;
    crypto_etf = false;
    single_stock_etf = false;
    inverse_etf = false;
    margin_requirement_long = absent r.ops;
    margin_requirement_short = absent r.ops;
    intraday_margin_long = absent r.ops;
    intraday_margin_short = absent r.ops;
    maintenance_margin_long = absent r.ops;
    maintenance_margin_short = absent r.ops;
    lot_size = absent r.ops;
    etf_leveraged_flag = "";
    etf_leveraged_factor = absent r.ops;
  }

  abbrev pub zero_stock_profiles_page : StockProfilesPage D
  zero_stock_profiles_page = record { profiles = []; pagination_key = "" }

  abbrev pub zero_crypto_profile : CryptoProfile D
  zero_crypto_profile = record {
    name = "";
    instrument_id = "";
    exchange_code = "";
    category = "";
    symbol = "";
    status = "";
    currency = "";
    min_trade_amount = absent r.ops;
    max_trade_amount = absent r.ops;
    min_trade_quantity = absent r.ops;
    max_trade_quantity = absent r.ops;
    price_step = absent r.ops;
    lot_size = absent r.ops;
  }

  abbrev pub zero_crypto_profiles_page : CryptoProfilesPage D
  zero_crypto_profiles_page = record { profiles = []; pagination_key = "" }

  abbrev pub zero_option_deliverable : OptionDeliverable D
  zero_option_deliverable = record {
    asset_type = "";
    symbol = "";
    instrument_id = "";
    amount = r.ops.zero_value;
    allocation_percentage = r.ops.zero_value;
    settlement_type = "";
    settlement_method = "";
    settlement_status = "";
  }

  abbrev pub zero_option_contract : OptionContract D
  zero_option_contract = record {
    instrument_id = "";
    symbol = "";
    status = "";
    tradable_status = "";
    expiration_date = "";
    init_expiration_date = "";
    root_symbol = "";
    underlying_symbol = "";
    underlying_instrument_id = "";
    underlying_type = "";
    option_type = "";
    style = "";
    strike_price = r.ops.zero_value;
    multiplier = r.ops.zero_value;
    settlement_method = "";
    expired_cycle = "";
    pp_ind = false;
    currency = "";
    def_type = "";
    listed_exchanges = [];
    deliverables = [];
  }

  abbrev pub zero_option_contracts_page : OptionContractsPage D
  zero_option_contracts_page = record { contracts = []; pagination_key = "" }
