-- ===== src/MarketData/Responses/Fundamentals/Decoding.antt =====
-- Fundamentals: how each object is decoded (marketdata/fundamentals.go).
use webull.Errors.{Result, ◌>>=◌, ok}
use webull.Json.Times.{time_json}
use webull.Json.{
  Fields, read_field, text_json, bool_json, int_json, struct_json, list_json, Reader, decimal_json,
  null_decimal_json,
}
use webull.MarketData.Responses.Fundamentals.{
  CompanyProfile, AnalystRating, TargetPrice, CapitalFlow, Dividend, Earnings, Filing, EpsForecast,
  IndustryRank, IndustryComparison,
}
use webull.MarketData.Responses.Fundamentals.Zero.{zero_industry_rank}

unfoldable pub decode_company_profile : CompanyProfile → Fields → Result CompanyProfile
decode_company_profile x fs = do
  symbol ← read_field "symbol" text_json x.symbol fs
  category ← read_field "category" text_json x.category fs
  company_name ← read_field "company_name" text_json x.company_name fs
  establish_date ← read_field "establish_date" text_json x.establish_date fs
  exchange ← read_field "exhibition_code" text_json x.exchange fs
  profile ← read_field "profile" text_json x.profile fs
  employees ← read_field "employees" text_json x.employees fs
  address ← read_field "address" text_json x.address fs
  ceo ← read_field "ceo" text_json x.ceo fs
  industries ← read_field "industries" (list_json "" text_json) x.industries fs
  ok (record {
    symbol = symbol;
    category = category;
    company_name = company_name;
    establish_date = establish_date;
    exchange = exchange;
    profile = profile;
    employees = employees;
    address = address;
    ceo = ceo;
    industries = industries;
  })

module _ {D T : Type 0} (r : Reader D T) where
  unfoldable pub decode_analyst_rating : AnalystRating D T → Fields → Result (AnalystRating D T)
  decode_analyst_rating x fs = do
    symbol ← read_field "symbol" text_json x.symbol fs
    category ← read_field "category" text_json x.category fs
    analysts ← read_field "number" (decimal_json r) x.analysts fs
    strong_buy ← read_field "strong_buy" (decimal_json r) x.strong_buy fs
    buy ← read_field "buy" (decimal_json r) x.buy fs
    hold ← read_field "hold" (decimal_json r) x.hold fs
    under_perform ← read_field "under_perform" (decimal_json r) x.under_perform fs
    sell ← read_field "sell" (decimal_json r) x.sell fs
    effective_from ← read_field "effective_start_date" (time_json r) x.effective_from fs
    ok (record {
      symbol = symbol;
      category = category;
      analysts = analysts;
      strong_buy = strong_buy;
      buy = buy;
      hold = hold;
      under_perform = under_perform;
      sell = sell;
      effective_from = effective_from;
    })

  unfoldable pub decode_target_price : TargetPrice D T → Fields → Result (TargetPrice D T)
  decode_target_price x fs = do
    symbol ← read_field "symbol" text_json x.symbol fs
    category ← read_field "category" text_json x.category fs
    mean ← read_field "mean" (decimal_json r) x.mean fs
    median ← read_field "median" (decimal_json r) x.median fs
    low ← read_field "low" (decimal_json r) x.low fs
    high ← read_field "high" (decimal_json r) x.high fs
    currency ← read_field "currency" text_json x.currency fs
    effective_from ← read_field "effective_start_date" (time_json r) x.effective_from fs
    ok (record {
      symbol = symbol;
      category = category;
      mean = mean;
      median = median;
      low = low;
      high = high;
      currency = currency;
      effective_from = effective_from;
    })

  unfoldable pub decode_capital_flow : CapitalFlow D T → Fields → Result (CapitalFlow D T)
  decode_capital_flow x fs = do
    date ← read_field "date" (time_json r) x.date fs
    large_in ← read_field "large_in" (decimal_json r) x.large_in fs
    large_out ← read_field "large_out" (decimal_json r) x.large_out fs
    medium_in ← read_field "medium_in" (decimal_json r) x.medium_in fs
    medium_out ← read_field "medium_out" (decimal_json r) x.medium_out fs
    small_in ← read_field "small_in" (decimal_json r) x.small_in fs
    small_out ← read_field "small_out" (decimal_json r) x.small_out fs
    ok (record {
      date = date;
      large_in = large_in;
      large_out = large_out;
      medium_in = medium_in;
      medium_out = medium_out;
      small_in = small_in;
      small_out = small_out;
    })

  unfoldable pub decode_dividend : Dividend D T → Fields → Result (Dividend D T)
  decode_dividend x fs = do
    symbol ← read_field "symbol" text_json x.symbol fs
    market ← read_field "market" text_json x.market fs
    currency ← read_field "currency" text_json x.currency fs
    amount ← read_field "amount" (decimal_json r) x.amount fs
    type ← read_field "div_type" text_json x.type fs
    declare_date ← read_field "declare_date" (time_json r) x.declare_date fs
    ex_dividend_date ← read_field "ex_div_date" (time_json r) x.ex_dividend_date fs
    record_date ← read_field "record_date" (time_json r) x.record_date fs
    pay_date ← read_field "pay_date" (time_json r) x.pay_date fs
    ok (record {
      symbol = symbol;
      market = market;
      currency = currency;
      amount = amount;
      type = type;
      declare_date = declare_date;
      ex_dividend_date = ex_dividend_date;
      record_date = record_date;
      pay_date = pay_date;
    })

  unfoldable pub decode_earnings : Earnings D T → Fields → Result (Earnings D T)
  decode_earnings x fs = do
    fiscal_year ← read_field "fiscal_year" int_json x.fiscal_year fs
    fiscal_period ← read_field "fiscal_period" int_json x.fiscal_period fs
    currency ← read_field "currency" text_json x.currency fs
    expected_publish_date ←
        read_field "expected_publish_date" (time_json r) x.expected_publish_date fs
    eps_actual ← read_field "eps_actual" (null_decimal_json r) x.eps_actual fs
    eps_estimate ← read_field "eps_est" (null_decimal_json r) x.eps_estimate fs
    revenue_actual ← read_field "rev_actual" (null_decimal_json r) x.revenue_actual fs
    revenue_estimate ← read_field "rev_est" (null_decimal_json r) x.revenue_estimate fs
    ok (record {
      fiscal_year = fiscal_year;
      fiscal_period = fiscal_period;
      currency = currency;
      expected_publish_date = expected_publish_date;
      eps_actual = eps_actual;
      eps_estimate = eps_estimate;
      revenue_actual = revenue_actual;
      revenue_estimate = revenue_estimate;
    })

  unfoldable pub decode_filing : Filing T → Fields → Result (Filing T)
  decode_filing x fs = do
    title ← read_field "title" text_json x.title fs
    url ← read_field "url" text_json x.url fs
    publish_date ← read_field "publish_date" (time_json r) x.publish_date fs
    ok (record { title = title; url = url; publish_date = publish_date })

  unfoldable pub decode_eps_forecast : EpsForecast D → Fields → Result (EpsForecast D)
  decode_eps_forecast x fs = do
    fiscal_year ← read_field "fiscal_year" int_json x.fiscal_year fs
    fiscal_period ← read_field "fiscal_period" int_json x.fiscal_period fs
    actual ← read_field "actual" (null_decimal_json r) x.actual fs
    estimate ← read_field "est" (null_decimal_json r) x.estimate fs
    reported ← read_field "reported" bool_json x.reported fs
    ok (record {
      fiscal_year = fiscal_year;
      fiscal_period = fiscal_period;
      actual = actual;
      estimate = estimate;
      reported = reported;
    })

  unfoldable pub decode_industry_rank : IndustryRank D → Fields → Result (IndustryRank D)
  decode_industry_rank x fs = do
    symbol ← read_field "symbol" text_json x.symbol fs
    name ← read_field "name" text_json x.name fs
    rank ← read_field "rank" int_json x.rank fs
    value ← read_field "value" (null_decimal_json r) x.value fs
    ok (record { symbol = symbol; name = name; rank = rank; value = value })

  unfoldable pub decode_industry_comparison :
      IndustryComparison D → Fields → Result (IndustryComparison D)
  decode_industry_comparison x fs = do
    fiscal_year ← read_field "fiscal_year" int_json x.fiscal_year fs
    fiscal_period ← read_field "fiscal_period" int_json x.fiscal_period fs
    industry_name ← read_field "industry_name" text_json x.industry_name fs
    metric ← read_field "type" text_json x.metric fs
    companies ←
        read_field "data" (list_json (zero_industry_rank r) (struct_json decode_industry_rank))
          x.companies fs
    ok (record {
      fiscal_year = fiscal_year;
      fiscal_period = fiscal_period;
      industry_name = industry_name;
      metric = metric;
      companies = companies;
    })
