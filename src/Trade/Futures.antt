-- ===== src/Trade/Futures.antt =====
-- Futures products and contracts as they are decoded: trade/futures.go.
use webull.Common.{String}
use webull.Common.Int.{ℤ, pos}
use webull.Errors.{Result, ◌>>=◌, ok}
use webull.Json.{Fields, read_field, text_json, int_json, Reader, decimal_json}

pub record FuturesProductClass : Type 0 where
  pub id : ℤ
  pub name : String

pub record FuturesProduct : Type 0 where
  pub name : String
  pub code : String
  pub product_class_id : ℤ
  pub product_class_name : String
  pub exchange_code : String

pub record FuturesContract (D : Type 0) : Type 0 where
  pub symbol : String
  pub instrument_id : String
  pub exchange_code : String
  pub code : String
  pub name : String
  pub product_class_id : ℤ
  pub product_class_name : String
  pub status : String
  pub currency : String
  pub contract_type : String
  pub settlement : String
  pub unit : ℤ
  pub contract_month : String
  pub settlement_date : String
  pub first_notice_date : String
  pub last_notice_date : String
  pub first_trading_date : String
  pub last_trading_date : String
  pub size : D
  pub min_tick : D

abbrev pub zero_futures_product_class : FuturesProductClass
zero_futures_product_class = record { id = pos 0; name = "" }

unfoldable pub decode_futures_product_class :
    FuturesProductClass → Fields → Result FuturesProductClass
decode_futures_product_class x fs = do
  id ← read_field "product_class_id" int_json x.id fs
  name ← read_field "product_class_name" text_json x.name fs
  ok (record { id = id; name = name })

abbrev pub zero_futures_product : FuturesProduct
zero_futures_product = record {
  name = "";
  code = "";
  product_class_id = pos 0;
  product_class_name = "";
  exchange_code = "";
}

unfoldable pub decode_futures_product : FuturesProduct → Fields → Result FuturesProduct
decode_futures_product x fs = do
  name ← read_field "name" text_json x.name fs
  code ← read_field "code" text_json x.code fs
  product_class_id ← read_field "product_class_id" int_json x.product_class_id fs
  product_class_name ← read_field "product_class_name" text_json x.product_class_name fs
  exchange_code ← read_field "exchange_code" text_json x.exchange_code fs
  ok (record {
    name = name;
    code = code;
    product_class_id = product_class_id;
    product_class_name = product_class_name;
    exchange_code = exchange_code;
  })

module _ {D T : Type 0} (r : Reader D T) where
  abbrev pub zero_futures_contract : FuturesContract D
  zero_futures_contract = record {
    symbol = "";
    instrument_id = "";
    exchange_code = "";
    code = "";
    name = "";
    product_class_id = pos 0;
    product_class_name = "";
    status = "";
    currency = "";
    contract_type = "";
    settlement = "";
    unit = pos 0;
    contract_month = "";
    settlement_date = "";
    first_notice_date = "";
    last_notice_date = "";
    first_trading_date = "";
    last_trading_date = "";
    size = r.ops.zero_value;
    min_tick = r.ops.zero_value;
  }

  unfoldable pub decode_futures_contract : FuturesContract D → Fields → Result (FuturesContract D)
  decode_futures_contract x fs = do
    symbol ← read_field "symbol" text_json x.symbol fs
    instrument_id ← read_field "instrument_id" text_json x.instrument_id fs
    exchange_code ← read_field "exchange_code" text_json x.exchange_code fs
    code ← read_field "code" text_json x.code fs
    name ← read_field "name" text_json x.name fs
    product_class_id ← read_field "product_class_id" int_json x.product_class_id fs
    product_class_name ← read_field "product_class_name" text_json x.product_class_name fs
    status ← read_field "status" text_json x.status fs
    currency ← read_field "currency" text_json x.currency fs
    contract_type ← read_field "contract_type" text_json x.contract_type fs
    settlement ← read_field "settlement" text_json x.settlement fs
    unit ← read_field "unit" int_json x.unit fs
    contract_month ← read_field "contract_month" text_json x.contract_month fs
    settlement_date ← read_field "settlement_date" text_json x.settlement_date fs
    first_notice_date ← read_field "first_notice_date" text_json x.first_notice_date fs
    last_notice_date ← read_field "last_notice_date" text_json x.last_notice_date fs
    first_trading_date ← read_field "first_trading_date" text_json x.first_trading_date fs
    last_trading_date ← read_field "last_trading_date" text_json x.last_trading_date fs
    size ← read_field "size" (decimal_json r) x.size fs
    min_tick ← read_field "min_tick" (decimal_json r) x.min_tick fs
    ok (record {
      symbol = symbol;
      instrument_id = instrument_id;
      exchange_code = exchange_code;
      code = code;
      name = name;
      product_class_id = product_class_id;
      product_class_name = product_class_name;
      status = status;
      currency = currency;
      contract_type = contract_type;
      settlement = settlement;
      unit = unit;
      contract_month = contract_month;
      settlement_date = settlement_date;
      first_notice_date = first_notice_date;
      last_notice_date = last_notice_date;
      first_trading_date = first_trading_date;
      last_trading_date = last_trading_date;
      size = size;
      min_tick = min_tick;
    })
