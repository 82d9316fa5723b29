-- ===== src/Trade/Accounts/Zero.antt =====
-- Accounts, balances, positions and cash activities: the values that decoding starts from (trade/accounts.go).
use webull.Common.{[]}
use webull.Trade.Decimal.{absent}
use webull.Json.{Reader}
use webull.Trade.Accounts.{Account, CurrencyAssets, Balance, PositionLeg, Position, CashActivity}

abbrev pub zero_account : Account
zero_account = record {
  account_id = "";
  account_number = "";
  account_type = "";
  account_label = "";
  account_class = "";
  user_id = "";
}

module _ {D T : Type 0} (r : Reader D T) where
  abbrev pub zero_currency_assets : CurrencyAssets D
  zero_currency_assets = record {
    currency = "";
    cash_balance = r.ops.zero_value;
    market_value = r.ops.zero_value;
    unrealized_profit_loss = r.ops.zero_value;
    settled_cash = absent r.ops;
    unsettled_cash = absent r.ops;
    held_amount = absent r.ops;
    frozen_amount = absent r.ops;
    buying_power = absent r.ops;
    available_withdrawal = absent r.ops;
    interests_unpaid = absent r.ops;
    net_liquidation_value = absent r.ops;
    option_buying_power = absent r.ops;
    day_buying_power = absent r.ops;
    overnight_buying_power = absent r.ops;
    night_trading_buying_power = absent r.ops;
    day_profit_loss = absent r.ops;
    used_margin = absent r.ops;
    used_margin_for_open_order = absent r.ops;
    init_margin = absent r.ops;
    maintenance_margin = absent r.ops;
    intraday_margin = absent r.ops;
    margin_excess = absent r.ops;
    margin_ratio = absent r.ops;
  }

  abbrev pub zero_balance : Balance D
  zero_balance = record {
    currency = "";
    total_cash_balance = r.ops.zero_value;
    total_market_value = r.ops.zero_value;
    total_unrealized_profit_loss = r.ops.zero_value;
    total_net_liquidation_value = r.ops.zero_value;
    total_day_profit_loss = r.ops.zero_value;
    day_trades_left = "";
    maintenance_margin = absent r.ops;
    used_margin = absent r.ops;
    used_margin_for_open_order = absent r.ops;
    init_margin = absent r.ops;
    intraday_margin = absent r.ops;
    margin_excess = absent r.ops;
    margin_ratio = absent r.ops;
    open_margin_calls = [];
    currency_assets = [];
  }

  abbrev pub zero_position_leg : PositionLeg D
  zero_position_leg = record {
    leg_id = "";
    symbol = "";
    quantity = absent r.ops;
    option_type = "";
    expire_date = "";
    exercise_price = absent r.ops;
    contract_multiplier = absent r.ops;
    contract_deliverable = absent r.ops;
    expiration_type = "";
  }

  abbrev pub zero_position : Position D
  zero_position = record {
    position_id = "";
    currency = "";
    symbol = "";
    instrument_type = "";
    option_strategy = "";
    quantity = r.ops.zero_value;
    last_price = r.ops.zero_value;
    cost_price = r.ops.zero_value;
    unrealized_profit_loss = r.ops.zero_value;
    event_outcome = "";
    legs = [];
  }

  abbrev pub zero_cash_activity : CashActivity D T
  zero_cash_activity = record {
    id = "";
    account_id = "";
    activity_type = "";
    activity_sub_type = "";
    currency = "";
    market = "";
    symbol = "";
    trade_date = "";
    net_amount = r.ops.zero_value;
    biz_time = r.zero_time;
  }
