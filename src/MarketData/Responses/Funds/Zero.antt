-- ===== src/MarketData/Responses/Funds/Zero.antt =====
-- Funds: the values that decoding starts from (marketdata/funds.go).
use webull.Common.{[]}
use webull.Common.Int.{pos}
use webull.Trade.Decimal.{absent}
use webull.Json.{Reader}
use webull.MarketData.Responses.Funds.{
  FundManager, FundBrief, FundAsset, FundAllocation, FundDividend, FundDividendsPage, FundFile,
  FundHolding, FundNetValue, FundPerformance, FundRating, FundSplit,
}

module _ {D T : Type 0} (r : Reader D T) where
  abbrev pub zero_fund_manager : FundManager D T
  zero_fund_manager = record {
    name = "";
    title = "";
    start_date = r.zero_time;
    end_date = r.zero_time;
    incumbent = pos 0;
    tenure_return = absent r.ops;
    tenure_years = absent r.ops;
    tenure_days = pos 0;
  }

  abbrev pub zero_fund_brief : FundBrief D T
  zero_fund_brief = record {
    name = "";
    launch_date = r.zero_time;
    benchmark = "";
    investment_objective = "";
    aum = absent r.ops;
    issuer = "";
    custodian = "";
    managers = [];
  }

  abbrev pub zero_fund_asset : FundAsset D
  zero_fund_asset = record { value = absent r.ops; ratio = absent r.ops }

  abbrev pub zero_fund_allocation : FundAllocation D T
  zero_fund_allocation = record {
    date = r.zero_time;
    aum = absent r.ops;
    cash = zero_fund_asset;
    bond = zero_fund_asset;
    stock = zero_fund_asset;
    preferred = zero_fund_asset;
    convertible = zero_fund_asset;
    other = zero_fund_asset;
  }

  abbrev pub zero_fund_dividend : FundDividend D T
  zero_fund_dividend = record {
    declare_date = r.zero_time;
    ex_dividend_date = r.zero_time;
    record_date = r.zero_time;
    pay_date = r.zero_time;
    per_share = r.ops.zero_value;
  }

  abbrev pub zero_fund_dividends_page : FundDividendsPage D T
  zero_fund_dividends_page = record { dividends = []; pagination_key = "" }

  abbrev pub zero_fund_file : FundFile T
  zero_fund_file = record { name = ""; url = ""; publish_date = r.zero_time; type = pos 0 }

  abbrev pub zero_fund_holding : FundHolding D T
  zero_fund_holding = record {
    symbol = "";
    name = "";
    held_percent = absent r.ops;
    held_change_percent = absent r.ops;
    maturity_date = r.zero_time;
    update_time = r.zero_time;
  }

  abbrev pub zero_fund_net_value : FundNetValue D T
  zero_fund_net_value = record { date = r.zero_time; currency = ""; net_value = r.ops.zero_value }

  abbrev pub zero_fund_performance : FundPerformance D T
  zero_fund_performance = record {
    currency = "";
    end_date = r.zero_time;
    return1_m = absent r.ops;
    return3_m = absent r.ops;
    return6_m = absent r.ops;
    return1_y = absent r.ops;
    return3_y = absent r.ops;
    return5_y = absent r.ops;
    return10_y = absent r.ops;
    since_inception = absent r.ops;
  }

  abbrev pub zero_fund_rating : FundRating T
  zero_fund_rating = record { date = r.zero_time; agency = ""; cycle = ""; rating = pos 0 }

  abbrev pub zero_fund_split : FundSplit D T
  zero_fund_split = record {
    date = r.zero_time;
    type = "";
    ratio = "";
    from = r.ops.zero_value;
    to = r.ops.zero_value;
  }
