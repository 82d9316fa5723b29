-- ===== src/Trade/Combo/Prepare/Sound.antt =====
-- What a group of orders satisfies once Combo.prepare has accepted it (trade/combos.go).
use webull.Common.{
  ℕ, suc, ◌+◌, ◌≤◌, String, ◌≡◌, refl, sym, ap, inl, inr, false, Option, none, some, List, [], ◌∷◌,
  Bool-cases, length, is_empty, All, All-split,
}
use webull.Errors.{Result, ok_inj, invalid_order, sentinel, wrap, ok, err}
use webull.Trade.Enums.{ComboType, role_stop_profit, role_stop_loss}
use webull.Trade.Decimal.{DecimalOps}
use webull.Trade.Order.{Order}
use webull.Trade.Prepare.{default_to, bad_id_length}
use webull.Trade.Prepare.Sound.{IsReady}
use webull.Trade.Client.{Wire, prepared}
use webull.Trade.Combo.{Combo, bracket, combo_rules, kind}
use webull.Trade.Combo.Prepare.{
  GroupProblem, group_report, group_report_iff, order_checks, count_role, count_checks, find_master,
  group_checks, all_present, cons_prepared, prepare_all, judge_group, prepare_kind, prepare_present,
  prepare_combo,
}
use webull.Trade.Client.Accepted.{prepared-IsReady}
use webull.Trade.Samples.{fresh}
use webull.Trade.Combo.Prepare.Members.{
  IsMember, HasDistinctIds, IsCounted, IsExitOf, GroupPasses, order_checks-All,
  count_checks-IsCounted, bracket_checks-exits,
}

-- What holds of the orders of a group of the given kind that Combo.prepare has accepted.
pub record IsGroup {D : Type 0} (ops : DecimalOps D) (group_kind : ComboType) (os : List (Order D))
    : Type 0 where
  pub ready : All (IsReady ops) os
  pub distinct : HasDistinctIds os
  pub members : All (IsMember group_kind) os
  pub counted : IsCounted os (combo_rules group_kind)
  pub some_exit :
      group_kind ≡ role_stop_profit
      → 1 ≤ count_role role_stop_profit os + count_role role_stop_loss os
  pub exits :
      group_kind ≡ role_stop_profit
      → (master : Order D) → find_master os ≡ some master
      → All (IsExitOf master) os

module _ {D : Type 0} (ops : DecimalOps D) where
  group_checks-IsGroup :
      (group_kind : ComboType) (os : List (Order D))
      → All (IsReady ops) os
      → GroupPasses (group_checks group_kind os)
      → IsGroup ops group_kind os
  unfolding group_checks
  group_checks-IsGroup group_kind os r h =
      let (orders, rest) = All-split (λ c. c.0 ≡ false) (order_checks group_kind [] 0 os) _ h in
      let (counts, bracket) =
        All-split (λ c. c.0 ≡ false) (count_checks (combo_rules group_kind) os) _ rest in
      let (new, distinct, members) = order_checks-All group_kind [] 0 os orders in
      record {
        ready = r;
        distinct = distinct;
        members = members;
        counted = count_checks-IsCounted (combo_rules group_kind) os counts;
        some_exit = λ k. (bracket_checks-exits group_kind os k bracket).0;
        exits = λ k. (bracket_checks-exits group_kind os k bracket).1;
      }

module _ {D T : Type 0} (w : Wire D T) where
  prepare_all-IsReady :
      (fresh : ℕ → String) (k : ℕ) (os ps : List (Order D))
      → prepare_all w fresh k os ≡ ok ps
      → All (IsReady w.ops) ps × (length ps ≡ length os)
  unfolding prepare_all
  prepare_all-IsReady fresh k [] ps h = rw (sym (ok_inj h)) (tt, refl)
  prepare_all-IsReady fresh k (o ∷ os) ps h =
      joined (prepared w (fresh k) (some o)) (prepare_all w fresh (suc k) os)
        (λ p e. prepared-IsReady w (fresh k) (some o) p e)
        (λ qs e. prepare_all-IsReady fresh (suc k) os qs e) h
    where
      joined :
          (a : Result (Order D)) (r : Result (List (Order D)))
          → ((p : Order D) → a ≡ ok p → IsReady w.ops p)
          → ((qs : List (Order D)) → r ≡ ok qs → All (IsReady w.ops) qs × (length qs ≡ length os))
          → cons_prepared w a r ≡ ok ps
          → All (IsReady w.ops) ps × (length ps ≡ length (o ∷ os))
      joined (err e) r p q s = cc
      joined (ok b) (err e) p q s = cc
      joined (ok b) (ok cs) p q s =
          let (rest, n) = q cs refl in rw (sym (ok_inj s)) ((p b refl, rest), ap suc n)

  judge_group-IsGroup :
      (group_kind : ComboType) (r : Result (List (Order D))) (ps : List (Order D))
      → ((qs : List (Order D)) → r ≡ ok qs → All (IsReady w.ops) qs)
      → judge_group w group_kind r ≡ ok ps
      → IsGroup w.ops group_kind ps
  unfolding judge_group
  judge_group-IsGroup group_kind (err e) ps f h = cc
  judge_group-IsGroup group_kind (ok qs) ps f h =
      settled (group_report (group_checks group_kind qs)) refl h
    where
      settled :
          (problems : List GroupProblem)
          → group_report (group_checks group_kind qs) ≡ problems
          → (elim problems [
            | [] ↦ ok qs
            | p ∷ rest ↦ err (wrap "problems" (sentinel invalid_order))
          ])
            ≡ ok ps
          → IsGroup w.ops group_kind ps
      settled [] e k =
          rw (sym (ok_inj k))
            (group_checks-IsGroup w.ops group_kind qs (f qs refl) ((group_report_iff _).0 e))
      settled (p ∷ rest) e k = cc

  prepare_kind-IsGroup :
      (fresh : ℕ → String) (os : List (Order D)) (r : Result ComboType) (ps : List (Order D))
      → prepare_kind w fresh os r ≡ ok ps
      → (group_kind : ComboType) × (r ≡ ok group_kind) × IsGroup w.ops group_kind ps
  unfolding prepare_kind
  prepare_kind-IsGroup fresh os (err e) ps h = cc
  prepare_kind-IsGroup fresh os (ok group_kind) ps h = (
    group_kind,
    refl,
    judge_group-IsGroup group_kind (prepare_all w fresh 0 os) ps
        (λ qs e. (prepare_all-IsReady fresh 0 os qs e).0) h,
  )

  prepare_present-IsGroup :
      (fresh : ℕ → String) (id : String) (x : Option (List (Order D))) (ps : List (Order D))
      → prepare_present w fresh id x ≡ ok ps
      → (os : List (Order D)) × (group_kind : ComboType) × (x ≡ some os)
        × (bad_id_length id ≡ false)
        × (kind os ≡ ok group_kind)
        × IsGroup w.ops group_kind ps
  unfolding prepare_present
  prepare_present-IsGroup fresh id none ps h = cc
  prepare_present-IsGroup fresh id (some os) ps h = elim (Bool-cases (bad_id_length id)) [
    | inl e ↦ cc (rw e at h)
    | inr e ↦
        let (g, k, q) = prepare_kind-IsGroup fresh os (kind os) ps (rw e at h) in
        (os, g, refl, e, k, q)
  ]

  -- A group that Combo.prepare accepts has no nil order, an identifier of a good length and a kind, which
  -- its orders have as prepared: each is ready, no two have one identifier, each has a role of that kind
  -- with a type this role admits (equities only, but for brackets, whose option orders have one leg),
  -- each role is taken as often as its rule permits, and a bracket has an exit, all exits closing what
  -- the master opens.
  pub prepare_combo-IsGroup :
      (fresh : ℕ → String) (group : String) (c : Combo D) (ps : List (Order D))
      → prepare_combo w fresh group c ≡ ok ps
      → (os : List (Order D)) × (group_kind : ComboType) × (all_present c.orders ≡ some os)
        × (bad_id_length (default_to group c.client_combo_order_id) ≡ false)
        × (kind os ≡ ok group_kind)
        × IsGroup w.ops group_kind ps
  unfolding prepare_combo
  prepare_combo-IsGroup fresh group c ps h = elim (Bool-cases (is_empty c.orders)) [
    | inl e ↦ cc (rw e at h)
    | inr e ↦
        prepare_present-IsGroup fresh (default_to group c.client_combo_order_id)
          (all_present c.orders) ps (rw e at h)
  ]
