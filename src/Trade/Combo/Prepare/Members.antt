-- ===== src/Trade/Combo/Prepare/Members.antt =====
-- What each check of a group of orders establishes (trade/combos.go).
use webull.Common.{
  ℕ, suc, ◌+◌, ◌≤◌, String, ◌≡◌, refl, ◌≢◌, ◌⊎◌, true, false, Option, none, some, List, [], ◌∷◌,
  arith, eq_iff, beq, All, contains, All-map, All-split,
}
use webull.Trade.Enums.{
  ComboType, role_master, role_stop_profit, role_stop_loss, role_oto, role_oco, role_otoco,
  instrument_equity, instrument_option, strategy_single,
}
use webull.Trade.Order.{Order}
use webull.Trade.Combo.{RoleRule, allows, rule, combo_rules, find_rule, opposite}
use webull.Trade.Combo.Prepare.{
  no_exit, GroupCheck, role_rule_checks, role_checks, order_checks, count_role, count_checks,
  find_master, exit_checks, exit_checks_of, bracket_checks,
}

-- The order `o` has a role that its kind of group has, and a type that this role admits. Groups other
-- than brackets are of equities, and an option order in a bracket has one leg.
pub record IsMember {D : Type 0} (group_kind : ComboType) (o : Order D) : Type 0 where
  pub rule : RoleRule
  pub has_rule : find_rule (combo_rules group_kind) o.combo_type ≡ some rule
  pub allowed : allows rule o.order_type ≡ true
  pub equity :
      (group_kind ≡ role_oto) ⊎ (group_kind ≡ role_oco) ⊎ (group_kind ≡ role_otoco)
      → o.instrument_type ≡ instrument_equity
  pub one_leg :
      group_kind ≡ role_stop_profit
      → o.instrument_type ≡ instrument_option
      → o.option_strategy ≡ strategy_single

-- No two orders have one identifier.
abbrev pub HasDistinctIds : {D : Type 0} → List (Order D) → Type 0
HasDistinctIds [] = Unit
HasDistinctIds (o ∷ os) = All (λ p. p.client_order_id ≢ o.client_order_id) os × HasDistinctIds os

-- The number of orders in each role is within the limits of its rule.
abbrev pub IsCounted : {D : Type 0} → List (Order D) → List (ComboType × RoleRule) → Type 0
IsCounted os [] = Unit
IsCounted os ((role, rule) ∷ rules) =
    ((rule.min_count ≤ count_role role os) × (count_role role os ≤ rule.max_count))
    × IsCounted os rules

-- An order of a bracket that is not its master closes what the master opens.
abbrev pub IsExitOf : {D : Type 0} → Order D → Order D → Type 0
IsExitOf master o =
    o.combo_type ≢ role_master → (o.symbol ≡ master.symbol) × (opposite master.side o.side ≡ true)

abbrev pub GroupPasses : List GroupCheck → Type 0
GroupPasses cs = All (λ c. c.0 ≡ false) cs

module _ {D : Type 0} where
  role_checks-IsMember :
      (group_kind : ComboType) (r : Option RoleRule) (i : ℕ) (o : Order D)
      → find_rule (combo_rules group_kind) o.combo_type ≡ r
      → GroupPasses (role_checks group_kind r i o)
      → IsMember group_kind o
  unfolding role_checks role_rule_checks
  role_checks-IsMember group_kind none i o e h = cc h.0
  role_checks-IsMember group_kind (some rule) i o e h = record {
    rule = rule;
    has_rule = e;
    allowed = ground arith;
    equity = λ k. ground (
      arith,
      eq_iff group_kind role_oto,
      eq_iff group_kind role_oco,
      eq_iff group_kind role_otoco,
      eq_iff o.instrument_type instrument_equity,
    );
    one_leg = λ k t. one_leg k (rw k at h) t;
  }
    where
      one_leg :
          group_kind ≡ role_stop_profit
          → GroupPasses (role_rule_checks role_stop_profit rule i o)
          → o.instrument_type ≡ instrument_option
          → o.option_strategy ≡ strategy_single
      one_leg k g t = ground (
        arith,
        eq_iff o.instrument_type instrument_option,
        eq_iff o.option_strategy strategy_single,
      )

  -- The identifiers that are not among `ids`, and distinct.
  pub order_checks-All :
      (group_kind : ComboType) (ids : List String) (i : ℕ) (os : List (Order D))
      → GroupPasses (order_checks group_kind ids i os)
      → All (λ o. contains ids o.client_order_id ≡ false) os
        × HasDistinctIds os
        × All (IsMember group_kind) os
  unfolding order_checks
  order_checks-All group_kind ids i [] h = (tt, tt, tt)
  order_checks-All group_kind ids i (o ∷ os) h =
      let (mine, rest) =
        All-split (λ c. c.0 ≡ false)
          (role_checks group_kind (find_rule (combo_rules group_kind) o.combo_type) i o) _ h.1 in
      let (new, distinct, members) =
        order_checks-All group_kind (o.client_order_id ∷ ids) (suc i) os rest in
      (
        (h.0, All-map (λ p k. later p.client_order_id k) os new),
        (All-map (λ p k. other p.client_order_id k) os new, distinct),
        (role_checks-IsMember group_kind _ i o refl mine, members),
      )
    where
      later :
          (id : String) → contains (o.client_order_id ∷ ids) id ≡ false → contains ids id ≡ false
      later id k = ground arith

      other : (id : String) → contains (o.client_order_id ∷ ids) id ≡ false → id ≢ o.client_order_id
      other id k = ground (arith, eq_iff id o.client_order_id, eq_iff o.client_order_id id)

  pub count_checks-IsCounted :
      (rules : List (ComboType × RoleRule)) (os : List (Order D))
      → GroupPasses (count_checks rules os)
      → IsCounted os rules
  unfolding count_checks
  count_checks-IsCounted [] os h = tt
  count_checks-IsCounted ((role, rule) ∷ rules) os h =
      (ground arith, count_checks-IsCounted rules os h.1)

  exit_checks-All :
      (master : Order D) (i : ℕ) (os : List (Order D))
      → GroupPasses (exit_checks master i os)
      → All (IsExitOf master) os
  unfolding exit_checks
  exit_checks-All master i [] h = tt
  exit_checks-All master i (o ∷ os) h = (
    λ k. ground (arith, eq_iff o.combo_type role_master, eq_iff o.symbol master.symbol),
    exit_checks-All master (suc i) os h.1.1,
  )

module _ {D : Type 0} where
  pub bracket_checks-exits :
      (group_kind : ComboType) (os : List (Order D))
      → group_kind ≡ role_stop_profit
      → GroupPasses (bracket_checks group_kind os)
      → (1 ≤ count_role role_stop_profit os + count_role role_stop_loss os)
        × ((master : Order D) → find_master os ≡ some master → All (IsExitOf master) os)
  unfolding bracket_checks exit_checks_of
  bracket_checks-exits group_kind os k h =
      let g : GroupPasses (
          (beq (count_role role_stop_profit os + count_role role_stop_loss os) 0, no_exit)
          ∷ exit_checks_of (find_master os) os) =
        rw ((eq_iff group_kind role_stop_profit).1 k) at h in
      (ground arith, λ master e. exit_checks-All master 0 os (rw e at g.1))
