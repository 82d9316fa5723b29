-- ===== src/Trade/Combo.antt =====
-- Groups of orders: trade/combos.go. A nil order of a group is `none`.
pub mod Prepare
pub mod Operations
pub mod Samples
use webull.Common.{
  ℕ, String, Bool, false, ◌||◌, Option, none, some, List, [], ◌∷◌, ◌++◌, map, ◌==◌, if◌then◌else◌,
  contains,
}
use webull.Errors.{Result, invalid_order, sentinel, wrap, ok, err}
use webull.Trade.Enums.{
  Side, buy, sell, short, OrderType, market, limit, stop_loss, stop_loss_limit, ComboType,
  role_master, role_stop_profit, role_stop_loss, role_oto, role_oco, role_otoco,
}
use webull.Trade.Order.{Order}

-- ClientComboOrderID and Orders.
pub record Combo (D : Type 0) : Type 0 where
  pub client_combo_order_id : String
  pub orders : List (Option (Order D))

abbrev pub empty_combo : {D : Type 0} → Combo D
empty_combo = record { client_combo_order_id = ""; orders = [] }

module _ {D : Type 0} where
  abbrev append_order : Combo D → Option (Order D) → Combo D
  append_order c o = record c { orders = c.orders ++ (o ∷ []) }

  -- add: a nil order is left out.
  unfoldable pub add : Combo D → ComboType → Option (Order D) → Combo D
  add c role none = c
  add c role (some o) = append_order c (some (record o { combo_type = role }))

  -- addRequired: a nil order is kept, for prepare to report.
  unfoldable pub add_required : Combo D → ComboType → Option (Order D) → Combo D
  add_required c role none = append_order c none
  add_required c role (some o) = append_order c (some (record o { combo_type = role }))

  unfoldable pub add_all : ComboType → Combo D → List (Option (Order D)) → Combo D
  add_all role c [] = c
  add_all role c (o ∷ os) = add_all role (add_required c role o) os

  -- Bracket
  unfoldable pub bracket : Option (Order D) → Option (Order D) → Option (Order D) → Combo D
  bracket master take_profit stop_loss =
      add (add (add empty_combo role_master master) role_stop_profit take_profit) role_stop_loss
        stop_loss

  -- OTO
  unfoldable pub oto : Option (Order D) → List (Option (Order D)) → Combo D
  oto master triggered = add_all role_oto (add_required empty_combo role_master master) triggered

  -- OCO
  unfoldable pub oco : List (Option (Order D)) → Combo D
  oco orders = add_all role_oco empty_combo orders

  -- OTOCO
  unfoldable pub otoco : Option (Order D) → List (Option (Order D)) → Combo D
  otoco master orders = add_all role_otoco (add_required empty_combo role_master master) orders

-- What Webull permits for one role within one kind of group.
pub record RoleRule : Type 0 where
  pub types : List OrderType
  pub min_count : ℕ
  pub max_count : ℕ

-- roleRule.allows
abbrev pub allows : RoleRule → OrderType → Bool
allows r t = contains r.types t

abbrev pub market_or_limit : List OrderType
market_or_limit = market ∷ limit ∷ []

abbrev pub triggerable : List OrderType
triggerable = market ∷ limit ∷ stop_loss ∷ stop_loss_limit ∷ []

abbrev pub cancellable : List OrderType
cancellable = limit ∷ stop_loss ∷ stop_loss_limit ∷ []

abbrev rule : List OrderType → ℕ → ℕ → RoleRule
rule types min_count max_count = record {
  types = types;
  min_count = min_count;
  max_count = max_count;
}

-- comboRules[kind]: the rule of each role, for a kind that `kind` returns.
unfoldable pub combo_rules : ComboType → List (ComboType × RoleRule)
combo_rules kind =
    if kind == role_stop_profit
    then (role_master, rule market_or_limit 0 1)
      ∷ (role_stop_profit, rule (limit ∷ []) 0 1)
      ∷ (role_stop_loss, rule (stop_loss ∷ []) 0 1)
      ∷ []
    else if kind == role_oto
    then (role_master, rule triggerable 1 1) ∷ (role_oto, rule triggerable 1 6) ∷ []
    else if kind == role_oco
    then (role_oco, rule cancellable 2 6) ∷ []
    else if kind == role_otoco
    then (role_master, rule triggerable 1 1) ∷ (role_otoco, rule cancellable 1 6) ∷ []
    else []

-- rules[role]
unfoldable pub find_rule : List (ComboType × RoleRule) → ComboType → Option RoleRule
find_rule [] role = none
find_rule ((r, x) ∷ rules) role = if r == role then some x else find_rule rules role

abbrev roles : {D : Type 0} → List (Order D) → List ComboType
roles os = map (λ o. o.combo_type) os

abbrev kind_of : List ComboType → Result ComboType
kind_of rs =
    if contains rs role_otoco
    then ok role_otoco
    else if contains rs role_oto
    then ok role_oto
    else if contains rs role_oco
    then ok role_oco
    else if contains rs role_stop_profit || contains rs role_stop_loss
    then ok role_stop_profit
    else err (wrap "a combo needs at least one dependent order" (sentinel invalid_order))

-- Combo.kind, once no order is nil.
unfoldable pub kind : {D : Type 0} → List (Order D) → Result ComboType
kind os = kind_of (roles os)

-- opposite: whether `b` closes a position opened by `a`.
unfoldable pub opposite : Side → Side → Bool
opposite a b = if a == buy then b == sell else if a == sell || a == short then b == buy else false
