-- ===== src/MarketData/Responses/Fundamentals/Zero.antt =====
-- Fundamentals: the values that decoding starts from (marketdata/fundamentals.go).
use webull.Common.{false, []}
use webull.Common.Int.{pos}
use webull.Trade.Decimal.{absent}
use webull.Json.{Reader}
use webull.MarketData.Responses.Fundamentals.{
  CompanyProfile, AnalystRating, TargetPrice, CapitalFlow, Dividend, Earnings, Filing, EpsForecast,
  IndustryRank, IndustryComparison,
}

abbrev pub zero_company_profile : CompanyProfile
zero_company_profile = record {
  symbol = "";
  category = "";
  company_name = "";
  establish_date = "";
  exchange = "";
  profile = "";
  employees = "";
  address = "";
  ceo = "";
  industries = [];
}

module _ {D T : Type 0} (r : Reader D T) where
  abbrev pub zero_analyst_rating : AnalystRating D T
  zero_analyst_rating = record {
    symbol = "";
    category = "";
    analysts = r.ops.zero_value;
    strong_buy = r.ops.zero_value;
    buy = r.ops.zero_value;
    hold = r.ops.zero_value;
    under_perform = r.ops.zero_value;
    sell = r.ops.zero_value;
    effective_from = r.zero_time;
  }

  abbrev pub zero_target_price : TargetPrice D T
  zero_target_price = record {
    symbol = "";
    category = "";
    mean = r.ops.zero_value;
    median = r.ops.zero_value;
    low = r.ops.zero_value;
    high = r.ops.zero_value;
    currency = "";
    effective_from = r.zero_time;
  }

  abbrev pub zero_capital_flow : CapitalFlow D T
  zero_capital_flow = record {
    date = r.zero_time;
    large_in = r.ops.zero_value;
    large_out = r.ops.zero_value;
    medium_in = r.ops.zero_value;
    medium_out = r.ops.zero_value;
    small_in = r.ops.zero_value;
    small_out = r.ops.zero_value;
  }

  abbrev pub zero_dividend : Dividend D T
  zero_dividend = record {
    symbol = "";
    market = "";
    currency = "";
    amount = r.ops.zero_value;
    type = "";
    declare_date = r.zero_time;
    ex_dividend_date = r.zero_time;
    record_date = r.zero_time;
    pay_date = r.zero_time;
  }

  abbrev pub zero_earnings : Earnings D T
  zero_earnings = record {
    fiscal_year = pos 0;
    fiscal_period = pos 0;
    currency = "";
    expected_publish_date = r.zero_time;
    eps_actual = absent r.ops;
    eps_estimate = absent r.ops;
    revenue_actual = absent r.ops;
    revenue_estimate = absent r.ops;
  }

  abbrev pub zero_filing : Filing T
  zero_filing = record { title = ""; url = ""; publish_date = r.zero_time }

  abbrev pub zero_eps_forecast : EpsForecast D
  zero_eps_forecast = record {
    fiscal_year = pos 0;
    fiscal_period = pos 0;
    actual = absent r.ops;
    estimate = absent r.ops;
    reported = false;
  }

  abbrev pub zero_industry_rank : IndustryRank D
  zero_industry_rank = record { symbol = ""; name = ""; rank = pos 0; value = absent r.ops }

  abbrev pub zero_industry_comparison : IndustryComparison D
  zero_industry_comparison = record {
    fiscal_year = pos 0;
    fiscal_period = pos 0;
    industry_name = "";
    metric = "";
    companies = [];
  }
