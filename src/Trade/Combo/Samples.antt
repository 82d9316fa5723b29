-- ===== src/Trade/Combo/Samples.antt =====
-- Sample groups and batches, and the theorems on them at these values.
use webull.Common.{
  ℕ, ◌≤◌, String, ◌≡◌, refl, ◌↔◌, ◌⊎◌, true, false, none, some, List, [], ◌∷◌, length, All,
}
use webull.Common.Int.{pos}
use webull.Errors.{Sentinel, Error, is_error, as_api, has_code, duplicate_order, api, ok, err}
use webull.Transport.Http.{quiet}
use webull.Trade.Enums.{sell, stop_loss, ComboType, role_master, role_stop_profit, role_stop_loss}
use webull.Trade.Decimal.{digits_after_point, clear, scale}
use webull.Trade.Order.{Order}
use webull.Trade.Assets.{
  report, asset_rules, excluded, leg_scale_checks, over_scale, rule_checks, checks_of_rule,
  validate_asset,
}
use webull.Trade.Prepare.{
  verdict_error, bad_id_length, fill_kinds, fill_session, clear_unset, basic_checks,
  strategy_checks, leg_defaults, leg_quantity, fill_leg, leg_checks, fill_option, option_checks,
  fill, checks, with_id, check_filled, prepare_named, prepare,
}
use webull.Trade.Client.{duplicate_order_code, classify, prepared}
use webull.Trade.Client.Batch.{send_batch, place_orders}
use webull.Trade.Combo.{
  Combo, add, add_required, add_all, bracket, oco, combo_rules, find_rule, kind, opposite,
}
use webull.Trade.Combo.Prepare.{
  group_report, role_rule_checks, role_checks, order_checks, count_role, count_checks, find_master,
  exit_checks, exit_checks_of, bracket_checks, group_checks, all_present, prepare_all, judge_group,
  prepare_kind, prepare_present, prepare_combo,
}
use webull.Trade.Combo.Operations.{cancel_combo}
use webull.Trade.Client.Refusals.{classify-is_error}
use webull.Trade.Client.Batch.Sound.{IsBatchOrder, place_orders-all_or_nothing}
use webull.Trade.Combo.Prepare.Sound.{IsGroup, prepare_combo-IsGroup}
use webull.Trade.Combo.Operations.Cancel.{all_tried, AreGone, cancel_combo_iff}
use webull.Trade.Samples.{sample_ops, number, plain, fresh, sample_wire, client}

-- Sell at a profit or at a loss, whichever comes first.
abbrev take_profit : Order (List ℕ)
take_profit = record plain { side = sell; limit_price = number "210" }

abbrev stop_out : Order (List ℕ)
stop_out = record plain { side = sell; order_type = stop_loss; stop_price = number "170" }

abbrev sample_oco : Combo (List ℕ)
sample_oco = oco (some take_profit ∷ some stop_out ∷ [])

-- The bracket of a purchase with both exits.
abbrev sample_bracket : Combo (List ℕ)
sample_bracket = bracket (some plain) (some take_profit) (some stop_out)

abbrev group_id : String
group_id = "99999999999999999999999999999999"

-- The order numbered `k` as prepare leaves it.
abbrev settled : ℕ → ComboType → Order (List ℕ) → Order (List ℕ)
settled k role o = (prepare sample_ops (fresh k) (record o { combo_type = role })).0

abbrev prepared_bracket : List (Order (List ℕ))
prepared_bracket =
    settled 0 role_master plain
    ∷ settled 1 role_stop_profit take_profit
    ∷ settled 2 role_stop_loss stop_out
    ∷ []

prepare_combo-IsGroup_example :
    (os : List (Order (List ℕ))) × (group_kind : ComboType) × (all_present sample_bracket.orders
      ≡ some os)
    × (bad_id_length group_id ≡ false)
    × (kind os ≡ ok group_kind)
    × IsGroup sample_ops group_kind prepared_bracket
unfolding bracket add all_present prepare_combo prepare_present prepare_kind prepare_all prepared
    kind judge_group group_report group_checks order_checks role_checks role_rule_checks find_rule
    combo_rules count_checks count_role bracket_checks exit_checks_of find_master exit_checks
    opposite verdict_error prepare prepare_named check_filled with_id fill clear_unset fill_session
    fill_kinds bad_id_length checks basic_checks validate_asset asset_rules checks_of_rule
    rule_checks over_scale leg_scale_checks excluded scale digits_after_point option_checks
    strategy_checks fill_option fill_leg leg_defaults leg_quantity leg_checks report clear
prepare_combo-IsGroup_example =
    prepare_combo-IsGroup sample_wire fresh group_id sample_bracket prepared_bracket refl

cancel_combo_iff_example :
    ((cancel_combo sample_wire client "account" sample_oco quiet).1
      ≡ all_tried sample_wire client "account" sample_oco.orders quiet)
    × (((cancel_combo sample_wire client "account" sample_oco quiet).0 ≡ none)
        ↔ AreGone sample_wire client "account" sample_oco.orders quiet)
unfolding oco add_all add_required
cancel_combo_iff_example = cancel_combo_iff sample_wire client "account" sample_oco quiet (λ e. cc)

place_orders-all_or_nothing_example :
    ((e : Error) × (place_orders sample_wire client fresh "account" (some plain ∷ []) quiet
        ≡ (err e, quiet)))
    ⊎ ((bs : List (Order (List ℕ))) × All (IsBatchOrder sample_ops) bs
        × (length bs ≡ 1)
        × (1 ≤ length bs)
        × (place_orders sample_wire client fresh "account" (some plain ∷ []) quiet
            ≡ send_batch sample_wire client "account" (ok bs) quiet))
place_orders-all_or_nothing_example =
    place_orders-all_or_nothing sample_wire client fresh "account" (some plain ∷ []) quiet

abbrev repeat_error : Error
repeat_error = api (record {
  status_code = 417;
  code = duplicate_order_code;
  message = "repeat";
  request_id = "";
  retry_after = pos 0;
  body = [];
  truncated = false;
})

classify-is_error_example :
    (as_api (classify repeat_error) ≡ as_api repeat_error)
    × ((s : Sentinel) → is_error repeat_error s ≡ true → is_error (classify repeat_error) s ≡ true)
    × ((is_error (classify repeat_error) duplicate_order ≡ true) ↔ (
        (is_error repeat_error duplicate_order ≡ true)
        ⊎ (has_code repeat_error (duplicate_order_code ∷ []) ≡ true)))
classify-is_error_example = classify-is_error repeat_error
