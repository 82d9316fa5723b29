-- ===== src/Trade/Samples.antt =====
-- Sample orders, groups and a client for them, and the theorems on orders at these values. A sample
-- decimal is its text.
use webull.Common.{
  ℕ, zero, suc, ◌≤◌, String, ◌≡◌, refl, inr, true, false, none, some, List, [], ◌∷◌, arith, codes,
}
use webull.Errors.{Error, is_error, invalid_order, text, ok, err}
use webull.Transport.Http.{quiet}
use webull.Transport.Attempt.{authorize_by, authorize}
use webull.Transport.Doer.Safety.{sent_count}
use webull.Trade.Occ.{
  chars, OccTail, is_root, is_tail, is_date, StrikeReader, leg_of, leg_from_symbol,
}
use webull.Trade.Occ.RoundTrip.{IsOcc, leg_from_symbol_iff}
use webull.Trade.Enums.{buy, limit, call}
use webull.Trade.Decimal.{DecimalOps, NullDecimal, digits_after_point, clear, scale}
use webull.Trade.Order.{OrderLeg, Order}
use webull.Trade.Assets.{
  report, asset_rules, excluded, leg_scale_checks, over_scale, rule_checks, checks_of_rule,
  validate_asset,
}
use webull.Trade.Prepare.{
  bad_id_length, fill_kinds, fill_session, clear_unset, basic_checks, strategy_checks, leg_defaults,
  leg_quantity, fill_leg, leg_checks, fill_option, option_checks, fill, checks, with_id,
  check_filled, prepare_named, prepare, valid,
}
use webull.Trade.Prepare.Sound.{IsReady, prepare-IsReady}
use webull.Trade.Messages.{zero_receipt}
use webull.Trade.Client.{Wire, Client, preview_order, place_order}
use webull.Trade.Client.Batch.{zero_batch}
use webull.Trade.Client.Safety.{place_order-sent_once}
use webull.Transport.Samples.{sample_doer, sample_env}
use webull.Trade.Prepare.Plain.{IsPlain, prepare-IsPlain}
use webull.Trade.Client.Refusals.{IsInvalid, place_order-refused}

abbrev pub sample_ops : DecimalOps (List ℕ)
sample_ops = record { zero_value = codes "0"; to_text = λ x. x }

abbrev pub number : String → NullDecimal (List ℕ)
number s = record { decimal = codes s; valid = true }

abbrev unset : NullDecimal (List ℕ)
unset = record { decimal = codes "0"; valid = false }

abbrev blank : Order (List ℕ)
blank = record {
  client_order_id = "";
  instrument_type = "";
  combo_type = "";
  entrust_type = "";
  market = "";
  trading_session = "";
  symbol = "";
  side = "";
  order_type = "";
  time_in_force = "";
  expire_date = "";
  quantity = unset;
  total_cash_amount = unset;
  limit_price = unset;
  stop_price = unset;
  trailing_type = "";
  trailing_stop_step = unset;
  current_ask = unset;
  current_bid = unset;
  algo_type = "";
  target_vol_percent = unset;
  max_target_percent = unset;
  algo_start_time = "";
  algo_end_time = "";
  event_outcome = "";
  event_trade_mode = "";
  option_strategy = "";
  position_intent = "";
  leg_direction = "";
  position_id = "";
  leg_in_strategy = "";
  legs = [];
}

-- One share at a limit.
abbrev pub plain : Order (List ℕ)
plain = record blank {
  symbol = "AAPL";
  side = buy;
  order_type = limit;
  limit_price = number "190.5";
  quantity = number "1";
}

abbrev call_leg : OrderLeg (List ℕ)
call_leg = record {
  side = "";
  quantity = unset;
  market = "";
  instrument_type = "";
  symbol = "AAPL";
  strike_price = number "240";
  expire_date = "2026-12-18";
  option_type = call;
}

-- Two contracts of one call.
abbrev option_order : Order (List ℕ)
option_order = record plain { quantity = number "2"; legs = call_leg ∷ [] }

abbrev pub fresh : ℕ → String
fresh zero = "00000000000000000000000000000000"
fresh (suc zero) = "11111111111111111111111111111111"
fresh (suc (suc n)) = "22222222222222222222222222222222"

abbrev pub sample_wire : Wire (List ℕ) ℕ
sample_wire = record {
  ops = sample_ops;
  env = sample_env;
  marshal = λ b. ok (codes "{}");
  read_receipt = λ s. ok zero_receipt;
  read_preview = λ s. err (text "none");
  read_batch = λ s. ok zero_batch;
  read_group = λ s. err (text "none");
  read_groups = λ s. ok [];
}

abbrev pub client : Client
client = record { doer = sample_doer; host = "api.webull.com" }

plain-IsPlain : IsPlain plain
plain-IsPlain = record {
  symbol = λ e. cc;
  side = λ e. cc;
  order_type = inr refl;
  priced = λ e. refl;
  quantity = refl;
  instrument_unset = refl;
  combo_unset = refl;
  entrust_unset = refl;
  tif_unset = refl;
  no_outcome = refl;
  no_legs = refl;
}

prepare-IsPlain_example : (prepare sample_ops (fresh 0) plain).1 ≡ valid
unfolding bad_id_length
prepare-IsPlain_example = prepare-IsPlain sample_ops (fresh 0) plain plain-IsPlain refl

prepare-IsReady_example : IsReady sample_ops (prepare sample_ops (fresh 0) option_order).0
unfolding prepare prepare_named check_filled with_id fill clear_unset fill_session fill_kinds
    bad_id_length checks basic_checks validate_asset asset_rules checks_of_rule rule_checks
    over_scale leg_scale_checks excluded scale digits_after_point option_checks strategy_checks
    fill_option fill_leg leg_defaults leg_quantity leg_checks report clear
prepare-IsReady_example = prepare-IsReady sample_ops (fresh 0) option_order refl

place_order-sent_once_example :
    sent_count (place_order sample_wire client (fresh 0) "account" (some plain) quiet).1 ≤ 1
unfolding authorize authorize_by
place_order-sent_once_example =
    place_order-sent_once sample_wire client quiet (none, refl) (omega arith) (fresh 0) "account"
      (some plain)

-- An order that names no symbol.
abbrev nameless : Order (List ℕ)
nameless = record plain { symbol = "" }

nameless-IsInvalid : IsInvalid sample_wire (fresh 0) (some nameless)
unfolding prepare prepare_named check_filled with_id fill clear_unset fill_session fill_kinds
    bad_id_length checks basic_checks validate_asset asset_rules checks_of_rule rule_checks
    over_scale leg_scale_checks excluded scale digits_after_point option_checks strategy_checks
    fill_option fill_leg leg_defaults leg_quantity leg_checks report clear
nameless-IsInvalid e = cc

place_order-refused_example :
    (e : Error) × (place_order sample_wire client (fresh 0) "account" (some nameless) quiet
      ≡ (err e, quiet))
    × (preview_order sample_wire client (fresh 0) "account" (some nameless) quiet ≡ (err e, quiet))
    × (is_error e invalid_order ≡ true)
place_order-refused_example =
    place_order-refused sample_wire client (fresh 0) "account" (some nameless) quiet
      nameless-IsInvalid

abbrev sample_reader : StrikeReader (List ℕ)
sample_reader = record { ops = sample_ops; thousandths = λ s. codes s }

abbrev aapl_tail : OccTail
aapl_tail = record {
  y1 = "2";
  y2 = "6";
  m1 = "1";
  m2 = "2";
  d1 = "1";
  d2 = "8";
  kind = "C";
  s1 = "0";
  s2 = "0";
  s3 = "2";
  s4 = "4";
  s5 = "0";
  s6 = "0";
  s7 = "0";
  s8 = "0";
}

abbrev aapl_leg : OrderLeg (List ℕ)
aapl_leg = leg_of sample_reader (chars "AAPL") aapl_tail

aapl-IsOcc : IsOcc "AAPL261218C00240000" (chars "AAPL") aapl_tail
unfolding is_root is_tail is_date
aapl-IsOcc = (refl, refl, refl, refl)

leg_from_symbol_iff_example : leg_from_symbol sample_reader "AAPL261218C00240000" ≡ ok aapl_leg
leg_from_symbol_iff_example =
    (leg_from_symbol_iff sample_reader "AAPL261218C00240000" aapl_leg).1
      (chars "AAPL", aapl_tail, aapl-IsOcc, refl)
