-- ===== src/Trade/Combo/Prepare.antt =====
-- Combo.prepare: trade/combos.go. The checks are lists of problems, as for single orders; `fresh k` is
-- the identifier drawn for the order numbered `k`, and `group` that of the group.
pub mod Members
pub mod Sound
use webull.Common.{
  ℕ, suc, ◌+◌, String, ◌≡◌, refl, ◌↔◌, Bool, true, false, not, ◌&&◌, ◌||◌, Option, none, some, List,
  [], ◌∷◌, ◌++◌, arith, ◌==◌, ltb, beq, if◌then◌else◌, is_empty, All, contains,
}
use webull.Errors.{Result, invalid_order, sentinel, wrap, ok, err}
use webull.Trade.Enums.{
  ComboType, role_master, role_stop_profit, role_stop_loss, role_oto, role_oco, role_otoco,
  instrument_equity, instrument_option, strategy_single,
}
use webull.Trade.Order.{Order}
use webull.Trade.Prepare.{default_to, bad_id_length}
use webull.Trade.Client.{Wire, prepared}
use webull.Trade.Combo.{Combo, RoleRule, allows, rule, combo_rules, find_rule, kind, opposite}

-- A failed check of a group, with the number of the order that it is about.
pub data GroupProblem : Type 0 where
  reused_id foreign_role type_not_allowed equity_only multi_leg exit_symbol exit_side :
      ℕ → GroupProblem
  bad_count : ComboType → GroupProblem
  no_exit : GroupProblem

abbrev pub GroupCheck : Type 0
GroupCheck = Bool × GroupProblem

unfoldable pub group_report : List GroupCheck → List GroupProblem
group_report [] = []
group_report ((bad, p) ∷ cs) = if bad then p ∷ group_report cs else group_report cs

pub group_report_iff : (cs : List GroupCheck) → (group_report cs ≡ []) ↔ All (λ c. c.0 ≡ false) cs
unfolding group_report
group_report_iff [] = ((λ h. tt), (λ h. refl))
group_report_iff ((bad, p) ∷ cs) = ground (arith, group_report_iff cs)

abbrev is_grouped : ComboType → Bool
is_grouped group_kind = group_kind == role_oto || group_kind == role_oco || group_kind == role_otoco

abbrev later_or {ℓ} : {A : Type ℓ} → Option A → Option A → Option A
later_or none a = a
later_or (some b) a = some b

module _ {D : Type 0} where
  -- What the order `o`, numbered `i`, is checked for when its role has a rule.
  unfoldable pub role_rule_checks : ComboType → RoleRule → ℕ → Order D → List GroupCheck
  role_rule_checks group_kind rule i o =
      (not (allows rule o.order_type), type_not_allowed i)
      ∷ (is_grouped group_kind && not (o.instrument_type == instrument_equity), equity_only i)
      ∷ (
        not (is_grouped group_kind)
            && (o.instrument_type == instrument_option
                && not (o.option_strategy == strategy_single)),
        multi_leg i,
      )
      ∷ []

  unfoldable pub role_checks : ComboType → Option RoleRule → ℕ → Order D → List GroupCheck
  role_checks group_kind none i o = (true, foreign_role i) ∷ []
  role_checks group_kind (some rule) i o = role_rule_checks group_kind rule i o

  -- The loop over the prepared orders; `ids` are the identifiers before the order numbered `i`.
  unfoldable pub order_checks : ComboType → List String → ℕ → List (Order D) → List GroupCheck
  order_checks group_kind ids i [] = []
  order_checks group_kind ids i (o ∷ os) =
      (contains ids o.client_order_id, reused_id i)
        ∷ role_checks group_kind (find_rule (combo_rules group_kind) o.combo_type) i o
      ++ order_checks group_kind (o.client_order_id ∷ ids) (suc i) os

  -- counts[role], for a role that has a rule.
  unfoldable pub count_role : ComboType → List (Order D) → ℕ
  count_role role [] = 0
  count_role role (o ∷ os) =
      if o.combo_type == role then count_role role os + 1 else count_role role os

  -- for role, rule := range rules
  unfoldable pub count_checks : List (ComboType × RoleRule) → List (Order D) → List GroupCheck
  count_checks [] os = []
  count_checks ((role, rule) ∷ rules) os =
      (
        ltb (count_role role os) rule.min_count || ltb rule.max_count (count_role role os),
        bad_count role,
      )
      ∷ count_checks rules os

  -- The last order whose role is the master's.
  unfoldable pub find_master : List (Order D) → Option (Order D)
  find_master [] = none
  find_master (o ∷ os) =
      later_or (find_master os) (if o.combo_type == role_master then some o else none)

  unfoldable pub exit_checks : Order D → ℕ → List (Order D) → List GroupCheck
  exit_checks master i [] = []
  exit_checks master i (o ∷ os) =
      (not (o.combo_type == role_master) && not (o.symbol == master.symbol), exit_symbol i)
      ∷ (not (o.combo_type == role_master) && not (opposite master.side o.side), exit_side i)
      ∷ exit_checks master (suc i) os

  unfoldable pub exit_checks_of : Option (Order D) → List (Order D) → List GroupCheck
  exit_checks_of none os = []
  exit_checks_of (some master) os = exit_checks master 0 os

  -- The checks of a bracket.
  unfoldable pub bracket_checks : ComboType → List (Order D) → List GroupCheck
  unfolding exit_checks_of
  bracket_checks group_kind os =
      if group_kind == role_stop_profit
      then (beq (count_role role_stop_profit os + count_role role_stop_loss os) 0, no_exit)
        ∷ exit_checks_of (find_master os) os
      else []

  -- All checks of the prepared orders of a group.
  unfoldable pub group_checks : ComboType → List (Order D) → List GroupCheck
  group_checks group_kind os =
      order_checks group_kind [] 0 os
      ++ (count_checks (combo_rules group_kind) os ++ bracket_checks group_kind os)

  abbrev cons_present : Order D → Option (List (Order D)) → Option (List (Order D))
  cons_present o none = none
  cons_present o (some os) = some (o ∷ os)

  -- The orders, if none is nil.
  unfoldable pub all_present : List (Option (Order D)) → Option (List (Order D))
  all_present [] = some []
  all_present (none ∷ os) = none
  all_present (some o ∷ os) = cons_present o (all_present os)

module _ {D T : Type 0} (w : Wire D T) where
  abbrev pub cons_prepared : Result (Order D) → Result (List (Order D)) → Result (List (Order D))
  cons_prepared (err e) r = err (wrap "order" e)
  cons_prepared (ok o) (err e) = err e
  cons_prepared (ok o) (ok os) = ok (o ∷ os)

  -- o.prepare() on each order: the first error ends it.
  unfoldable pub prepare_all : (ℕ → String) → ℕ → List (Order D) → Result (List (Order D))
  prepare_all fresh k [] = ok []
  prepare_all fresh k (o ∷ os) =
      cons_prepared (prepared w (fresh k) (some o)) (prepare_all fresh (suc k) os)

  unfoldable pub judge_group : ComboType → Result (List (Order D)) → Result (List (Order D))
  judge_group group_kind (err e) = err e
  judge_group group_kind (ok os) = elim (group_report (group_checks group_kind os)) [
    | [] ↦ ok os
    | p ∷ ps ↦ err (wrap "problems" (sentinel invalid_order))
  ]

  unfoldable pub prepare_kind :
      (ℕ → String) → List (Order D) → Result ComboType → Result (List (Order D))
  prepare_kind fresh os (err e) = err e
  prepare_kind fresh os (ok group_kind) = judge_group group_kind (prepare_all fresh 0 os)

  unfoldable pub prepare_present :
      (ℕ → String) → String → Option (List (Order D)) → Result (List (Order D))
  prepare_present fresh id none = err (wrap "order is nil" (sentinel invalid_order))
  prepare_present fresh id (some os) =
      if bad_id_length id
      then err (wrap "ClientComboOrderID must be 10 to 40 characters" (sentinel invalid_order))
      else prepare_kind fresh os (kind os)

  -- Combo.prepare: the orders of the group once prepared, or the error. The group's identifier is
  -- `group_id`.
  unfoldable pub prepare_combo :
      (fresh : ℕ → String) → (group : String) → Combo D → Result (List (Order D))
  prepare_combo fresh group c =
      if is_empty c.orders
      then err (wrap "empty combo" (sentinel invalid_order))
      else prepare_present fresh (default_to group c.client_combo_order_id) (all_present c.orders)
