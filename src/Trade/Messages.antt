-- ===== src/Trade/Messages.antt =====
-- What the order endpoints take and return: trade/orders.go, and the group of trade/combos.go. The
-- types of decimals and of times are parameters.
use webull.Common.{String, List}
use webull.Trade.Enums.{
  Side, OrderType, TimeInForce, ComboType, EntrustType, TradingSession, InstrumentType, OptionType,
  OptionStrategy,
}
use webull.Trade.Decimal.{NullDecimal}
use webull.Trade.Order.{Order}
use webull.Common.Int.{ℤ}

pub record OrderReceipt : Type 0 where
  pub client_order_id : String
  pub order_id : String
  pub client_combo_order_id : String
  pub combo_order_id : String

-- var out OrderReceipt
abbrev pub zero_receipt : OrderReceipt
zero_receipt = record {
  client_order_id = "";
  order_id = "";
  client_combo_order_id = "";
  combo_order_id = "";
}

pub record OrderPreview (D : Type 0) : Type 0 where
  pub estimated_cost : D
  pub estimated_transaction_fee : D
  pub currency : String

pub record LegModification (D : Type 0) : Type 0 where
  pub id : String
  pub quantity : NullDecimal D

pub record OrderModification (D : Type 0) : Type 0 where
  pub client_order_id : String
  pub order_type : OrderType
  pub time_in_force : TimeInForce
  pub quantity : NullDecimal D
  pub limit_price : NullDecimal D
  pub stop_price : NullDecimal D
  pub trailing_type : String
  pub trailing_stop_step : NullDecimal D
  pub target_vol_percent : NullDecimal D
  pub max_target_percent : NullDecimal D
  pub algo_start_time : String
  pub algo_end_time : String
  pub legs : List (LegModification D)

pub record Commission (D : Type 0) : Type 0 where
  pub actual : NullDecimal D
  pub receivable : NullDecimal D

pub record Fee (D : Type 0) : Type 0 where
  pub fee_type : String
  pub actual : NullDecimal D
  pub receivable : NullDecimal D

pub record OrderInfoLeg (D : Type 0) : Type 0 where
  pub id : String
  pub symbol : String
  pub side : Side
  pub quantity : D
  pub option_type : OptionType
  pub style : String
  pub strike_price : NullDecimal D
  pub expire_date : String
  pub contract_multiplier : NullDecimal D
  pub contract_deliverable : NullDecimal D

pub record OrderInfo (D T : Type 0) : Type 0 where
  pub client_order_id : String
  pub order_id : String
  pub symbol : String
  pub side : Side
  pub status : String
  pub order_type : OrderType
  pub instrument_type : InstrumentType
  pub trading_session : TradingSession
  pub entrust_type : EntrustType
  pub time_in_force : TimeInForce
  pub expire_date : String
  pub total_quantity : D
  pub filled_quantity : NullDecimal D
  pub filled_price : NullDecimal D
  pub limit_price : NullDecimal D
  pub stop_price : NullDecimal D
  pub trailing_type : String
  pub trailing_stop_step : NullDecimal D
  pub place_time : T
  pub filled_time : T
  pub algo_type : String
  pub target_vol_percent : NullDecimal D
  pub max_target_percent : NullDecimal D
  pub algo_start_time : String
  pub algo_end_time : String
  pub event_outcome : String
  pub event_trade_mode : String
  pub option_strategy : OptionStrategy
  pub position_intent : String
  pub leg_direction : String
  pub position_id : String
  pub leg_in_strategy : String
  pub legs : List (OrderInfoLeg D)
  pub commission : Commission D
  pub fees : List (Fee D)

pub record OrderGroup (D T : Type 0) : Type 0 where
  pub client_order_id : String
  pub combo_type : ComboType
  pub combo_order_id : String
  pub orders : List (OrderInfo D T)

pub record OrdersRequest : Type 0 where
  pub account_id : String
  pub start_date : String
  pub end_date : String
  pub page_size : ℤ
  pub last_client_order_id : String

pub record BatchOrderResult : Type 0 where
  pub client_order_id : String
  pub order_id : String
  pub code : String
  pub message : String

pub record BatchResult : Type 0 where
  pub total : ℤ
  pub success : ℤ
  pub failed : ℤ
  pub orders : List BatchOrderResult

-- The JSON bodies of the order endpoints.
pub data Body (D : Type 0) : Type 0 where
  order_envelope : (account_id : String) → (new_orders : List (Order D)) → Body D
  combo_envelope :
      (account_id client_combo_order_id : String) → (new_orders : List (Order D)) → Body D
  modify_envelope : (account_id : String) → (modify_orders : List (OrderModification D)) → Body D
  cancel_envelope : (account_id client_order_id : String) → Body D
  batch_envelope : (account_id : String) → (batch_orders : List (Order D)) → Body D
