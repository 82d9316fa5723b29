-- ===== src/Trade/Accounts/Decoding.antt =====
-- Accounts, balances, positions and cash activities: how each object is decoded (trade/accounts.go).
use webull.Errors.{Result, ◌>>=◌, ok}
use webull.Json.{
  Fields, read_field, text_json, struct_json, list_json, Reader, decimal_json, null_decimal_json,
}
use webull.Trade.Accounts.{Account, CurrencyAssets, Balance, PositionLeg, Position, CashActivity}
use webull.Trade.Accounts.Zero.{zero_currency_assets, zero_position_leg}

unfoldable pub decode_account : Account → Fields → Result Account
decode_account x fs = do
  account_id ← read_field "account_id" text_json x.account_id fs
  account_number ← read_field "account_number" text_json x.account_number fs
  account_type ← read_field "account_type" text_json x.account_type fs
  account_label ← read_field "account_label" text_json x.account_label fs
  account_class ← read_field "account_class" text_json x.account_class fs
  user_id ← read_field "user_id" text_json x.user_id fs
  ok (record {
    account_id = account_id;
    account_number = account_number;
    account_type = account_type;
    account_label = account_label;
    account_class = account_class;
    user_id = user_id;
  })

module _ {D T : Type 0} (r : Reader D T) where
  unfoldable pub decode_currency_assets : CurrencyAssets D → Fields → Result (CurrencyAssets D)
  decode_currency_assets x fs = do
    currency ← read_field "currency" text_json x.currency fs
    cash_balance ← read_field "cash_balance" (decimal_json r) x.cash_balance fs
    market_value ← read_field "market_value" (decimal_json r) x.market_value fs
    unrealized_profit_loss ←
        read_field "unrealized_profit_loss" (decimal_json r) x.unrealized_profit_loss fs
    settled_cash ← read_field "settled_cash" (null_decimal_json r) x.settled_cash fs
    unsettled_cash ← read_field "unsettled_cash" (null_decimal_json r) x.unsettled_cash fs
    held_amount ← read_field "held_amount" (null_decimal_json r) x.held_amount fs
    frozen_amount ← read_field "frozen_amount" (null_decimal_json r) x.frozen_amount fs
    buying_power ← read_field "buying_power" (null_decimal_json r) x.buying_power fs
    available_withdrawal ←
        read_field "available_withdrawal" (null_decimal_json r) x.available_withdrawal fs
    interests_unpaid ← read_field "interests_unpaid" (null_decimal_json r) x.interests_unpaid fs
    net_liquidation_value ←
        read_field "net_liquidation_value" (null_decimal_json r) x.net_liquidation_value fs
    option_buying_power ←
        read_field "option_buying_power" (null_decimal_json r) x.option_buying_power fs
    day_buying_power ← read_field "day_buying_power" (null_decimal_json r) x.day_buying_power fs
    overnight_buying_power ←
        read_field "overnight_buying_power" (null_decimal_json r) x.overnight_buying_power fs
    night_trading_buying_power ←
        read_field "night_trading_buying_power" (null_decimal_json r) x.night_trading_buying_power
          fs
    day_profit_loss ← read_field "day_profit_loss" (null_decimal_json r) x.day_profit_loss fs
    used_margin ← read_field "used_margin" (null_decimal_json r) x.used_margin fs
    used_margin_for_open_order ←
        read_field "used_margin_for_open_order" (null_decimal_json r) x.used_margin_for_open_order
          fs
    init_margin ← read_field "init_margin" (null_decimal_json r) x.init_margin fs
    maintenance_margin ←
        read_field "maintenance_margin" (null_decimal_json r) x.maintenance_margin fs
    intraday_margin ← read_field "intraday_margin" (null_decimal_json r) x.intraday_margin fs
    margin_excess ← read_field "margin_excess" (null_decimal_json r) x.margin_excess fs
    margin_ratio ← read_field "margin_ratio" (null_decimal_json r) x.margin_ratio fs
    ok (record {
      currency = currency;
      cash_balance = cash_balance;
      market_value = market_value;
      unrealized_profit_loss = unrealized_profit_loss;
      settled_cash = settled_cash;
      unsettled_cash = unsettled_cash;
      held_amount = held_amount;
      frozen_amount = frozen_amount;
      buying_power = buying_power;
      available_withdrawal = available_withdrawal;
      interests_unpaid = interests_unpaid;
      net_liquidation_value = net_liquidation_value;
      option_buying_power = option_buying_power;
      day_buying_power = day_buying_power;
      overnight_buying_power = overnight_buying_power;
      night_trading_buying_power = night_trading_buying_power;
      day_profit_loss = day_profit_loss;
      used_margin = used_margin;
      used_margin_for_open_order = used_margin_for_open_order;
      init_margin = init_margin;
      maintenance_margin = maintenance_margin;
      intraday_margin = intraday_margin;
      margin_excess = margin_excess;
      margin_ratio = margin_ratio;
    })

  unfoldable pub decode_balance : Balance D → Fields → Result (Balance D)
  decode_balance x fs = do
    currency ← read_field "total_asset_currency" text_json x.currency fs
    total_cash_balance ← read_field "total_cash_balance" (decimal_json r) x.total_cash_balance fs
    total_market_value ← read_field "total_market_value" (decimal_json r) x.total_market_value fs
    total_unrealized_profit_loss ←
        read_field "total_unrealized_profit_loss" (decimal_json r) x.total_unrealized_profit_loss fs
    total_net_liquidation_value ←
        read_field "total_net_liquidation_value" (decimal_json r) x.total_net_liquidation_value fs
    total_day_profit_loss ←
        read_field "total_day_profit_loss" (decimal_json r) x.total_day_profit_loss fs
    day_trades_left ← read_field "day_trades_left" text_json x.day_trades_left fs
    maintenance_margin ←
        read_field "maintenance_margin" (null_decimal_json r) x.maintenance_margin fs
    used_margin ← read_field "used_margin" (null_decimal_json r) x.used_margin fs
    used_margin_for_open_order ←
        read_field "used_margin_for_open_order" (null_decimal_json r) x.used_margin_for_open_order
          fs
    init_margin ← read_field "init_margin" (null_decimal_json r) x.init_margin fs
    intraday_margin ← read_field "intraday_margin" (null_decimal_json r) x.intraday_margin fs
    margin_excess ← read_field "margin_excess" (null_decimal_json r) x.margin_excess fs
    margin_ratio ← read_field "margin_ratio" (null_decimal_json r) x.margin_ratio fs
    open_margin_calls ←
        read_field "open_margin_calls" (list_json "" text_json) x.open_margin_calls fs
    currency_assets ←
        read_field "account_currency_assets"
          (list_json (zero_currency_assets r) (struct_json decode_currency_assets))
          x.currency_assets fs
    ok (record {
      currency = currency;
      total_cash_balance = total_cash_balance;
      total_market_value = total_market_value;
      total_unrealized_profit_loss = total_unrealized_profit_loss;
      total_net_liquidation_value = total_net_liquidation_value;
      total_day_profit_loss = total_day_profit_loss;
      day_trades_left = day_trades_left;
      maintenance_margin = maintenance_margin;
      used_margin = used_margin;
      used_margin_for_open_order = used_margin_for_open_order;
      init_margin = init_margin;
      intraday_margin = intraday_margin;
      margin_excess = margin_excess;
      margin_ratio = margin_ratio;
      open_margin_calls = open_margin_calls;
      currency_assets = currency_assets;
    })

  unfoldable pub decode_position_leg : PositionLeg D → Fields → Result (PositionLeg D)
  decode_position_leg x fs = do
    leg_id ← read_field "leg_id" text_json x.leg_id fs
    symbol ← read_field "symbol" text_json x.symbol fs
    quantity ← read_field "quantity" (null_decimal_json r) x.quantity fs
    option_type ← read_field "option_type" text_json x.option_type fs
    expire_date ← read_field "option_expire_date" text_json x.expire_date fs
    exercise_price ← read_field "option_exercise_price" (null_decimal_json r) x.exercise_price fs
    contract_multiplier ←
        read_field "option_contract_multiplier" (null_decimal_json r) x.contract_multiplier fs
    contract_deliverable ←
        read_field "option_contract_deliverable" (null_decimal_json r) x.contract_deliverable fs
    expiration_type ← read_field "expiration_type" text_json x.expiration_type fs
    ok (record {
      leg_id = leg_id;
      symbol = symbol;
      quantity = quantity;
      option_type = option_type;
      expire_date = expire_date;
      exercise_price = exercise_price;
      contract_multiplier = contract_multiplier;
      contract_deliverable = contract_deliverable;
      expiration_type = expiration_type;
    })

  unfoldable pub decode_position : Position D → Fields → Result (Position D)
  decode_position x fs = do
    position_id ← read_field "position_id" text_json x.position_id fs
    currency ← read_field "currency" text_json x.currency fs
    symbol ← read_field "symbol" text_json x.symbol fs
    instrument_type ← read_field "instrument_type" text_json x.instrument_type fs
    option_strategy ← read_field "option_strategy" text_json x.option_strategy fs
    quantity ← read_field "quantity" (decimal_json r) x.quantity fs
    last_price ← read_field "last_price" (decimal_json r) x.last_price fs
    cost_price ← read_field "cost_price" (decimal_json r) x.cost_price fs
    unrealized_profit_loss ←
        read_field "unrealized_profit_loss" (decimal_json r) x.unrealized_profit_loss fs
    event_outcome ← read_field "event_outcome" text_json x.event_outcome fs
    legs ←
        read_field "legs" (list_json (zero_position_leg r) (struct_json decode_position_leg)) x.legs
          fs
    ok (record {
      position_id = position_id;
      currency = currency;
      symbol = symbol;
      instrument_type = instrument_type;
      option_strategy = option_strategy;
      quantity = quantity;
      last_price = last_price;
      cost_price = cost_price;
      unrealized_profit_loss = unrealized_profit_loss;
      event_outcome = event_outcome;
      legs = legs;
    })

  unfoldable pub decode_cash_activity : CashActivity D T → Fields → Result (CashActivity D T)
  decode_cash_activity x fs = do
    id ← read_field "id" text_json x.id fs
    account_id ← read_field "account_id" text_json x.account_id fs
    activity_type ← read_field "activity_type" text_json x.activity_type fs
    activity_sub_type ← read_field "activity_sub_type" text_json x.activity_sub_type fs
    currency ← read_field "currency" text_json x.currency fs
    market ← read_field "market" text_json x.market fs
    symbol ← read_field "symbol" text_json x.symbol fs
    trade_date ← read_field "trade_date" text_json x.trade_date fs
    net_amount ← read_field "net_amount" (decimal_json r) x.net_amount fs
    biz_time ← read_field "biz_time" r.std_time x.biz_time fs
    ok (record {
      id = id;
      account_id = account_id;
      activity_type = activity_type;
      activity_sub_type = activity_sub_type;
      currency = currency;
      market = market;
      symbol = symbol;
      trade_date = trade_date;
      net_amount = net_amount;
      biz_time = biz_time;
    })
