-- ===== src/Trade/Profiles/Decoding.antt =====
-- Stock and crypto profiles and option contracts: how each object is decoded (trade/instruments.go).
use webull.Errors.{Result, ◌>>=◌, ok}
use webull.Json.{
  Fields, read_field, text_json, bool_json, struct_json, list_json, Reader, decimal_json,
  null_decimal_json,
}
use webull.Trade.Profiles.{
  StockProfile, StockProfilesPage, CryptoProfile, CryptoProfilesPage, OptionDeliverable,
  OptionContract, OptionContractsPage,
}
use webull.Trade.Profiles.Zero.{
  zero_stock_profile, zero_crypto_profile, zero_option_deliverable, zero_option_contract,
}

module _ {D T : Type 0} (r : Reader D T) where
  unfoldable pub decode_stock_profile : StockProfile D → Fields → Result (StockProfile D)
  decode_stock_profile x fs = do
    name ← read_field "name" text_json x.name fs
    instrument_id ← read_field "instrument_id" text_json x.instrument_id fs
    exchange_code ← read_field "exchange_code" text_json x.exchange_code fs
    category ← read_field "category" text_json x.category fs
    symbol ← read_field "symbol" text_json x.symbol fs
    status ← read_field "status" text_json x.status fs
    sub_category ← read_field "sub_category" text_json x.sub_category fs
    currency ← read_field "currency" text_json x.currency fs
    shortable ← read_field "shortable" bool_json x.shortable fs
    fractionable ← read_field "fractionable" bool_json x.fractionable fs
    marginable ← read_field "marginable" bool_json x.marginable fs
    overnight_trading_supported ←
        read_field "overnight_trading_supported" bool_json x.overnight_trading_supported fs
    easy_to_borrow ← read_field "easy_to_borrow" bool_json x.easy_to_borrow fs
    crypto_etf ← read_field "crypto_etf" bool_json x.crypto_etf fs
    single_stock_etf ← read_field "single_stock_etf" bool_json x.single_stock_etf fs
    inverse_etf ← read_field "inverse_etf" bool_json x.inverse_etf fs
    margin_requirement_long ←
        read_field "margin_requirement_long" (null_decimal_json r) x.margin_requirement_long fs
    margin_requirement_short ←
        read_field "margin_requirement_short" (null_decimal_json r) x.margin_requirement_short fs
    intraday_margin_long ←
        read_field "intraday_margin_long" (null_decimal_json r) x.intraday_margin_long fs
    intraday_margin_short ←
        read_field "intraday_margin_short" (null_decimal_json r) x.intraday_margin_short fs
    maintenance_margin_long ←
        read_field "maintenance_margin_long" (null_decimal_json r) x.maintenance_margin_long fs
    maintenance_margin_short ←
        read_field "maintenance_margin_short" (null_decimal_json r) x.maintenance_margin_short fs
    lot_size ← read_field "lot_size" (null_decimal_json r) x.lot_size fs
    etf_leveraged_flag ← read_field "etf_leveraged_flag" text_json x.etf_leveraged_flag fs
    etf_leveraged_factor ←
        read_field "etf_leveraged_factor" (null_decimal_json r) x.etf_leveraged_factor fs
    ok (record {
      name = name;
      instrument_id = instrument_id;
      exchange_code = exchange_code;
      category = category;
      symbol = symbol;
      status = status;
      sub_category = sub_category;
      currency = currency;
      shortable = shortable;
      fractionable = fractionable;
      marginable = marginable;
      overnight_trading_supported = overnight_trading_supported;
      easy_to_borrow = easy_to_borrow;
      crypto_etf = crypto_etf;
      single_stock_etf = single_stock_etf;
      inverse_etf = inverse_etf;
      margin_requirement_long = margin_requirement_long;
      margin_requirement_short = margin_requirement_short;
      intraday_margin_long = intraday_margin_long;
      intraday_margin_short = intraday_margin_short;
      maintenance_margin_long = maintenance_margin_long;
      maintenance_margin_short = maintenance_margin_short;
      lot_size = lot_size;
      etf_leveraged_flag = etf_leveraged_flag;
      etf_leveraged_factor = etf_leveraged_factor;
    })

  unfoldable pub decode_stock_profiles_page :
      StockProfilesPage D → Fields → Result (StockProfilesPage D)
  decode_stock_profiles_page x fs = do
    profiles ←
        read_field "data" (list_json (zero_stock_profile r) (struct_json decode_stock_profile))
          x.profiles fs
    pagination_key ← read_field "pagination_key" text_json x.pagination_key fs
    ok (record { profiles = profiles; pagination_key = pagination_key })

  unfoldable pub decode_crypto_profile : CryptoProfile D → Fields → Result (CryptoProfile D)
  decode_crypto_profile x fs = do
    name ← read_field "name" text_json x.name fs
    instrument_id ← read_field "instrument_id" text_json x.instrument_id fs
    exchange_code ← read_field "exchange_code" text_json x.exchange_code fs
    category ← read_field "category" text_json x.category fs
    symbol ← read_field "symbol" text_json x.symbol fs
    status ← read_field "status" text_json x.status fs
    currency ← read_field "currency" text_json x.currency fs
    min_trade_amount ← read_field "min_trade_amt" (null_decimal_json r) x.min_trade_amount fs
    max_trade_amount ← read_field "max_trade_amt" (null_decimal_json r) x.max_trade_amount fs
    min_trade_quantity ← read_field "min_trade_qty" (null_decimal_json r) x.min_trade_quantity fs
    max_trade_quantity ← read_field "max_trade_qty" (null_decimal_json r) x.max_trade_quantity fs
    price_step ← read_field "price_step" (null_decimal_json r) x.price_step fs
    lot_size ← read_field "lot_size" (null_decimal_json r) x.lot_size fs
    ok (record {
      name = name;
      instrument_id = instrument_id;
      exchange_code = exchange_code;
      category = category;
      symbol = symbol;
      status = status;
      currency = currency;
      min_trade_amount = min_trade_amount;
      max_trade_amount = max_trade_amount;
      min_trade_quantity = min_trade_quantity;
      max_trade_quantity = max_trade_quantity;
      price_step = price_step;
      lot_size = lot_size;
    })

  unfoldable pub decode_crypto_profiles_page :
      CryptoProfilesPage D → Fields → Result (CryptoProfilesPage D)
  decode_crypto_profiles_page x fs = do
    profiles ←
        read_field "data" (list_json (zero_crypto_profile r) (struct_json decode_crypto_profile))
          x.profiles fs
    pagination_key ← read_field "pagination_key" text_json x.pagination_key fs
    ok (record { profiles = profiles; pagination_key = pagination_key })

  unfoldable pub decode_option_deliverable :
      OptionDeliverable D → Fields → Result (OptionDeliverable D)
  decode_option_deliverable x fs = do
    asset_type ← read_field "asset_type" text_json x.asset_type fs
    symbol ← read_field "symbol" text_json x.symbol fs
    instrument_id ← read_field "instrument_id" text_json x.instrument_id fs
    amount ← read_field "amount" (decimal_json r) x.amount fs
    allocation_percentage ←
        read_field "allocation_percentage" (decimal_json r) x.allocation_percentage fs
    settlement_type ← read_field "settlement_type" text_json x.settlement_type fs
    settlement_method ← read_field "settlement_method" text_json x.settlement_method fs
    settlement_status ← read_field "settlement_status" text_json x.settlement_status fs
    ok (record {
      asset_type = asset_type;
      symbol = symbol;
      instrument_id = instrument_id;
      amount = amount;
      allocation_percentage = allocation_percentage;
      settlement_type = settlement_type;
      settlement_method = settlement_method;
      settlement_status = settlement_status;
    })

  unfoldable pub decode_option_contract : OptionContract D → Fields → Result (OptionContract D)
  decode_option_contract x fs = do
    instrument_id ← read_field "instrument_id" text_json x.instrument_id fs
    symbol ← read_field "symbol" text_json x.symbol fs
    status ← read_field "status" text_json x.status fs
    tradable_status ← read_field "tradable_status" text_json x.tradable_status fs
    expiration_date ← read_field "expiration_date" text_json x.expiration_date fs
    init_expiration_date ← read_field "init_expiration_date" text_json x.init_expiration_date fs
    root_symbol ← read_field "root_symbol" text_json x.root_symbol fs
    underlying_symbol ← read_field "underlying_symbol" text_json x.underlying_symbol fs
    underlying_instrument_id ←
        read_field "underlying_instrument_id" text_json x.underlying_instrument_id fs
    underlying_type ← read_field "underlying_type" text_json x.underlying_type fs
    option_type ← read_field "option_type" text_json x.option_type fs
    style ← read_field "style" text_json x.style fs
    strike_price ← read_field "strike_price" (decimal_json r) x.strike_price fs
    multiplier ← read_field "multiplier" (decimal_json r) x.multiplier fs
    settlement_method ← read_field "settlement_method" text_json x.settlement_method fs
    expired_cycle ← read_field "expired_cycle" text_json x.expired_cycle fs
    pp_ind ← read_field "ppind" bool_json x.pp_ind fs
    currency ← read_field "currency" text_json x.currency fs
    def_type ← read_field "def_type" text_json x.def_type fs
    listed_exchanges ← read_field "listed_exchanges" (list_json "" text_json) x.listed_exchanges fs
    deliverables ←
        read_field "deliverables"
          (list_json (zero_option_deliverable r) (struct_json decode_option_deliverable))
          x.deliverables fs
    ok (record {
      instrument_id = instrument_id;
      symbol = symbol;
      status = status;
      tradable_status = tradable_status;
      expiration_date = expiration_date;
      init_expiration_date = init_expiration_date;
      root_symbol = root_symbol;
      underlying_symbol = underlying_symbol;
      underlying_instrument_id = underlying_instrument_id;
      underlying_type = underlying_type;
      option_type = option_type;
      style = style;
      strike_price = strike_price;
      multiplier = multiplier;
      settlement_method = settlement_method;
      expired_cycle = expired_cycle;
      pp_ind = pp_ind;
      currency = currency;
      def_type = def_type;
      listed_exchanges = listed_exchanges;
      deliverables = deliverables;
    })

  unfoldable pub decode_option_contracts_page :
      OptionContractsPage D → Fields → Result (OptionContractsPage D)
  decode_option_contracts_page x fs = do
    contracts ←
        read_field "data" (list_json (zero_option_contract r) (struct_json decode_option_contract))
          x.contracts fs
    pagination_key ← read_field "pagination_key" text_json x.pagination_key fs
    ok (record { contracts = contracts; pagination_key = pagination_key })
