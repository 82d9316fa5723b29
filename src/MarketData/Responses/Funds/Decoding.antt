-- ===== src/MarketData/Responses/Funds/Decoding.antt =====
-- Funds: how each object is decoded (marketdata/funds.go).
use webull.Errors.{Result, ◌>>=◌, ok}
use webull.Json.Times.{time_json}
use webull.Json.{
  Fields, read_field, text_json, int_json, struct_json, list_json, Reader, decimal_json,
  null_decimal_json,
}
use webull.MarketData.Responses.Funds.{
  FundManager, FundBrief, FundAsset, FundAllocation, FundDividend, FundDividendsPage, FundFile,
  FundHolding, FundNetValue, FundPerformance, FundRating, FundSplit,
}
use webull.MarketData.Responses.Funds.Zero.{zero_fund_manager, zero_fund_dividend}

module _ {D T : Type 0} (r : Reader D T) where
  unfoldable pub decode_fund_manager : FundManager D T → Fields → Result (FundManager D T)
  decode_fund_manager x fs = do
    name ← read_field "name" text_json x.name fs
    title ← read_field "title" text_json x.title fs
    start_date ← read_field "start_date" (time_json r) x.start_date fs
    end_date ← read_field "end_date" (time_json r) x.end_date fs
    incumbent ← read_field "is_incumbent" int_json x.incumbent fs
    tenure_return ← read_field "tenure_return" (null_decimal_json r) x.tenure_return fs
    tenure_years ← read_field "tenure_years" (null_decimal_json r) x.tenure_years fs
    tenure_days ← read_field "tenure_days" int_json x.tenure_days fs
    ok (record {
      name = name;
      title = title;
      start_date = start_date;
      end_date = end_date;
      incumbent = incumbent;
      tenure_return = tenure_return;
      tenure_years = tenure_years;
      tenure_days = tenure_days;
    })

  unfoldable pub decode_fund_brief : FundBrief D T → Fields → Result (FundBrief D T)
  decode_fund_brief x fs = do
    name ← read_field "name" text_json x.name fs
    launch_date ← read_field "launch_date" (time_json r) x.launch_date fs
    benchmark ← read_field "benchmark" text_json x.benchmark fs
    investment_objective ← read_field "investment_objective" text_json x.investment_objective fs
    aum ← read_field "aum" (null_decimal_json r) x.aum fs
    issuer ← read_field "issuer" text_json x.issuer fs
    custodian ← read_field "custodian" text_json x.custodian fs
    managers ←
        read_field "managers" (list_json (zero_fund_manager r) (struct_json decode_fund_manager))
          x.managers fs
    ok (record {
      name = name;
      launch_date = launch_date;
      benchmark = benchmark;
      investment_objective = investment_objective;
      aum = aum;
      issuer = issuer;
      custodian = custodian;
      managers = managers;
    })

  unfoldable pub decode_fund_asset : FundAsset D → Fields → Result (FundAsset D)
  decode_fund_asset x fs = do
    value ← read_field "value" (null_decimal_json r) x.value fs
    ratio ← read_field "ratio" (null_decimal_json r) x.ratio fs
    ok (record { value = value; ratio = ratio })

  unfoldable pub decode_fund_allocation : FundAllocation D T → Fields → Result (FundAllocation D T)
  decode_fund_allocation x fs = do
    date ← read_field "date" (time_json r) x.date fs
    aum ← read_field "aum" (null_decimal_json r) x.aum fs
    cash ← read_field "cash" (struct_json decode_fund_asset) x.cash fs
    bond ← read_field "bond" (struct_json decode_fund_asset) x.bond fs
    stock ← read_field "stock" (struct_json decode_fund_asset) x.stock fs
    preferred ← read_field "preferred" (struct_json decode_fund_asset) x.preferred fs
    convertible ← read_field "convertible" (struct_json decode_fund_asset) x.convertible fs
    other ← read_field "other" (struct_json decode_fund_asset) x.other fs
    ok (record {
      date = date;
      aum = aum;
      cash = cash;
      bond = bond;
      stock = stock;
      preferred = preferred;
      convertible = convertible;
      other = other;
    })

  unfoldable pub decode_fund_dividend : FundDividend D T → Fields → Result (FundDividend D T)
  decode_fund_dividend x fs = do
    declare_date ← read_field "publish_date" (time_json r) x.declare_date fs
    ex_dividend_date ← read_field "share_date" (time_json r) x.ex_dividend_date fs
    record_date ← read_field "record_date" (time_json r) x.record_date fs
    pay_date ← read_field "pay_date" (time_json r) x.pay_date fs
    per_share ← read_field "dps" (decimal_json r) x.per_share fs
    ok (record {
      declare_date = declare_date;
      ex_dividend_date = ex_dividend_date;
      record_date = record_date;
      pay_date = pay_date;
      per_share = per_share;
    })

  unfoldable pub decode_fund_dividends_page :
      FundDividendsPage D T → Fields → Result (FundDividendsPage D T)
  decode_fund_dividends_page x fs = do
    dividends ←
        read_field "data" (list_json (zero_fund_dividend r) (struct_json decode_fund_dividend))
          x.dividends fs
    pagination_key ← read_field "pagination_key" text_json x.pagination_key fs
    ok (record { dividends = dividends; pagination_key = pagination_key })

  unfoldable pub decode_fund_file : FundFile T → Fields → Result (FundFile T)
  decode_fund_file x fs = do
    name ← read_field "file_name" text_json x.name fs
    url ← read_field "url" text_json x.url fs
    publish_date ← read_field "publish_date" (time_json r) x.publish_date fs
    type ← read_field "type" int_json x.type fs
    ok (record { name = name; url = url; publish_date = publish_date; type = type })

  unfoldable pub decode_fund_holding : FundHolding D T → Fields → Result (FundHolding D T)
  decode_fund_holding x fs = do
    symbol ← read_field "target_symbol" text_json x.symbol fs
    name ← read_field "stock_name" text_json x.name fs
    held_percent ← read_field "share_held_pct" (null_decimal_json r) x.held_percent fs
    held_change_percent ←
        read_field "share_held_chg_pct" (null_decimal_json r) x.held_change_percent fs
    maturity_date ← read_field "maturity_date" (time_json r) x.maturity_date fs
    update_time ← read_field "update_time" (time_json r) x.update_time fs
    ok (record {
      symbol = symbol;
      name = name;
      held_percent = held_percent;
      held_change_percent = held_change_percent;
      maturity_date = maturity_date;
      update_time = update_time;
    })

  unfoldable pub decode_fund_net_value : FundNetValue D T → Fields → Result (FundNetValue D T)
  decode_fund_net_value x fs = do
    date ← read_field "date" (time_json r) x.date fs
    currency ← read_field "currency" text_json x.currency fs
    net_value ← read_field "net_value" (decimal_json r) x.net_value fs
    ok (record { date = date; currency = currency; net_value = net_value })

  unfoldable pub decode_fund_performance :
      FundPerformance D T → Fields → Result (FundPerformance D T)
  decode_fund_performance x fs = do
    currency ← read_field "currency" text_json x.currency fs
    end_date ← read_field "end_date" (time_json r) x.end_date fs
    return1_m ← read_field "return_1m" (null_decimal_json r) x.return1_m fs
    return3_m ← read_field "return_3m" (null_decimal_json r) x.return3_m fs
    return6_m ← read_field "return_6m" (null_decimal_json r) x.return6_m fs
    return1_y ← read_field "return_1y" (null_decimal_json r) x.return1_y fs
    return3_y ← read_field "return_3y" (null_decimal_json r) x.return3_y fs
    return5_y ← read_field "return_5y" (null_decimal_json r) x.return5_y fs
    return10_y ← read_field "return_10y" (null_decimal_json r) x.return10_y fs
    since_inception ← read_field "return_si" (null_decimal_json r) x.since_inception fs
    ok (record {
      currency = currency;
      end_date = end_date;
      return1_m = return1_m;
      return3_m = return3_m;
      return6_m = return6_m;
      return1_y = return1_y;
      return3_y = return3_y;
      return5_y = return5_y;
      return10_y = return10_y;
      since_inception = since_inception;
    })

  unfoldable pub decode_fund_rating : FundRating T → Fields → Result (FundRating T)
  decode_fund_rating x fs = do
    date ← read_field "rating_date" (time_json r) x.date fs
    agency ← read_field "rating_agency" text_json x.agency fs
    cycle ← read_field "rating_cycle" text_json x.cycle fs
    rating ← read_field "rating_results" int_json x.rating fs
    ok (record { date = date; agency = agency; cycle = cycle; rating = rating })

  unfoldable pub decode_fund_split : FundSplit D T → Fields → Result (FundSplit D T)
  decode_fund_split x fs = do
    date ← read_field "split_date" (time_json r) x.date fs
    type ← read_field "split_type" text_json x.type fs
    ratio ← read_field "split_ratio" text_json x.ratio fs
    from ← read_field "from" (decimal_json r) x.from fs
    to ← read_field "to" (decimal_json r) x.to fs
    ok (record { date = date; type = type; ratio = ratio; from = from; to = to })
