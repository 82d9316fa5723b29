-- ===== src/Trade/Order.antt =====
-- Order and OrderLeg: trade/orders.go. The type of decimals is a parameter.
use webull.Common.{String, List}
use webull.Trade.Enums.{
  Side, OrderType, TimeInForce, ComboType, EntrustType, TradingSession, InstrumentType, OptionType,
  OptionStrategy,
}
use webull.Trade.Decimal.{NullDecimal}

pub record OrderLeg (D : Type 0) : Type 0 where
  pub side : Side
  pub quantity : NullDecimal D
  pub market : String
  pub instrument_type : InstrumentType
  pub symbol : String
  pub strike_price : NullDecimal D
  pub expire_date : String
  pub option_type : OptionType

pub record Order (D : Type 0) : Type 0 where
  pub client_order_id : String
  pub instrument_type : InstrumentType
  pub combo_type : ComboType
  pub entrust_type : EntrustType
  pub market : String
  pub trading_session : TradingSession
  pub symbol : String
  pub side : Side
  pub order_type : OrderType
  pub time_in_force : TimeInForce
  pub expire_date : String
  pub quantity : NullDecimal D
  pub total_cash_amount : NullDecimal D
  pub limit_price : NullDecimal D
  pub stop_price : NullDecimal D
  pub trailing_type : String
  pub trailing_stop_step : NullDecimal D
  pub current_ask : NullDecimal D
  pub current_bid : NullDecimal D
  pub algo_type : String
  pub target_vol_percent : NullDecimal D
  pub max_target_percent : NullDecimal D
  pub algo_start_time : String
  pub algo_end_time : String
  pub event_outcome : String
  pub event_trade_mode : String
  pub option_strategy : OptionStrategy
  pub position_intent : String
  pub leg_direction : String
  pub position_id : String
  pub leg_in_strategy : String
  pub legs : List (OrderLeg D)
