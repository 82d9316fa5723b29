-- ===== src/Trade/Enums.antt =====
-- The open enumerations of orders: trade/orders.go and trade/enums.go. They are texts with declared
-- constants, so that a value which the server adds later passes through. The empty text means unset.
use Prim.Native.String.{String}

-- The direction of an order.
abbrev pub Side : Type 0
Side = String

abbrev pub buy : Side
buy = "BUY"

abbrev pub sell : Side
sell = "SELL"

abbrev pub short : Side
short = "SHORT"

-- How an order executes.
abbrev pub OrderType : Type 0
OrderType = String

abbrev pub market : OrderType
market = "MARKET"

abbrev pub limit : OrderType
limit = "LIMIT"

abbrev pub stop_loss : OrderType
stop_loss = "STOP_LOSS"

abbrev pub stop_loss_limit : OrderType
stop_loss_limit = "STOP_LOSS_LIMIT"

abbrev pub trailing_stop_loss : OrderType
trailing_stop_loss = "TRAILING_STOP_LOSS"

abbrev pub market_on_open : OrderType
market_on_open = "MARKET_ON_OPEN"

abbrev pub market_on_close : OrderType
market_on_close = "MARKET_ON_CLOSE"

abbrev pub limit_on_open : OrderType
limit_on_open = "LIMIT_ON_OPEN"

-- How long an order stays active.
abbrev pub TimeInForce : Type 0
TimeInForce = String

abbrev pub day : TimeInForce
day = "DAY"

abbrev pub gtc : TimeInForce
gtc = "GTC"

abbrev pub ioc : TimeInForce
ioc = "IOC"

abbrev pub gtd : TimeInForce
gtd = "GTD"

abbrev pub fok : TimeInForce
fok = "FOK"

-- An order's role within a group.
abbrev pub ComboType : Type 0
ComboType = String

abbrev pub normal : ComboType
normal = "NORMAL"

abbrev pub role_master : ComboType
role_master = "MASTER"

abbrev pub role_stop_profit : ComboType
role_stop_profit = "STOP_PROFIT"

abbrev pub role_stop_loss : ComboType
role_stop_loss = "STOP_LOSS"

abbrev pub role_oto : ComboType
role_oto = "OTO"

abbrev pub role_oco : ComboType
role_oco = "OCO"

abbrev pub role_otoco : ComboType
role_otoco = "OTOCO"

-- Whether the size is a quantity or an amount of cash.
abbrev pub EntrustType : Type 0
EntrustType = String

abbrev pub by_quantity : EntrustType
by_quantity = "QTY"

abbrev pub by_amount : EntrustType
by_amount = "AMOUNT"

-- When an equity order may execute.
abbrev pub TradingSession : Type 0
TradingSession = String

abbrev pub session_core : TradingSession
session_core = "CORE"

-- The asset class.
abbrev pub InstrumentType : Type 0
InstrumentType = String

abbrev pub instrument_equity : InstrumentType
instrument_equity = "EQUITY"

abbrev pub instrument_option : InstrumentType
instrument_option = "OPTION"

abbrev pub instrument_futures : InstrumentType
instrument_futures = "FUTURES"

abbrev pub instrument_crypto : InstrumentType
instrument_crypto = "CRYPTO"

abbrev pub instrument_event : InstrumentType
instrument_event = "EVENT"

-- A call or a put.
abbrev pub OptionType : Type 0
OptionType = String

abbrev pub call : OptionType
call = "CALL"

abbrev pub put : OptionType
put = "PUT"

-- The strategy of an option order.
abbrev pub OptionStrategy : Type 0
OptionStrategy = String

abbrev pub strategy_single : OptionStrategy
strategy_single = "SINGLE"
