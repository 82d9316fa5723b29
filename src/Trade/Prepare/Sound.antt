-- ===== src/Trade/Prepare/Sound.antt =====
-- What an order satisfies once prepare has accepted it (trade/orders.go, trade/assets.go).

use webull.Common.{
  ℕ, suc, ◌≤◌, String, len, ◌≡◌, refl, ap, ◌≢◌, ◌↔◌, ◌⊎◌, inl, inr, true, false, not, ◌&&◌, List,
  [], ◌∷◌, map, arith, ◌==◌, eq_iff, beq, if◌then◌else◌, Bool-cases, length, is_empty, All,
}
use webull.Trade.Enums.{
  limit, stop_loss, stop_loss_limit, trailing_stop_loss, limit_on_open, gtd, normal, by_quantity,
  by_amount, instrument_equity, instrument_option, strategy_single,
}
use webull.Trade.Decimal.{DecimalOps, scale}
use webull.Trade.Order.{OrderLeg, Order}
use webull.Trade.Assets.{Problem, Check, report, report_iff, validate_asset}
use webull.Trade.Assets.Rules.{
  Passes, Passes-split, IsPermitted, validate_asset-IsPermitted, IsWholeLeg,
  validate_asset-whole_legs,
}
use webull.Trade.Prepare.{
  valid, verdict_of, bad_id_length, basic_checks, strategy_checks, default_to, leg_defaults,
  leg_quantity, fill_leg, leg_checks, fill_option, option_checks, fill, checks, with_id,
  check_filled, prepare_named, prepare,
}

-- The requirements on every order, whatever its asset class.
abbrev pub IsComplete : {D : Type 0} → Order D → Type 0
IsComplete o = record {
  symbol : o.symbol ≢ "";
  side : o.side ≢ "";
  order_type : o.order_type ≢ "";
  limit_priced :
      (o.order_type ≡ limit) ⊎ (o.order_type ≡ limit_on_open) ⊎ (o.order_type ≡ stop_loss_limit)
      → o.limit_price.valid ≡ true;
  stop_priced :
      (o.order_type ≡ stop_loss) ⊎ (o.order_type ≡ stop_loss_limit) → o.stop_price.valid ≡ true;
  trailing :
      o.order_type ≡ trailing_stop_loss
      → (o.trailing_type ≢ "") × (o.trailing_stop_step.valid ≡ true);
  dated : o.time_in_force ≡ gtd → o.expire_date ≢ "";
  sized : o.entrust_type ≡ by_quantity → o.quantity.valid ≡ true;
  funded : o.entrust_type ≡ by_amount → o.total_cash_amount.valid ≡ true;
}

module _ {D : Type 0} (ops : DecimalOps D) (o : Order D) where
  basic_checks-IsComplete : Passes (basic_checks ops o) → IsComplete o
  unfolding basic_checks
  basic_checks-IsComplete h = record {
    symbol = ground (arith, eq_iff o.symbol "");
    side = ground (arith, eq_iff o.side "");
    order_type = ground (arith, eq_iff o.order_type "");
    limit_priced = λ e. ground (
      arith,
      eq_iff o.order_type limit,
      eq_iff o.order_type limit_on_open,
      eq_iff o.order_type stop_loss_limit,
    );
    stop_priced =
        λ e. ground (arith, eq_iff o.order_type stop_loss, eq_iff o.order_type stop_loss_limit);
    trailing =
        λ e. ground (arith, eq_iff o.order_type trailing_stop_loss, eq_iff o.trailing_type "");
    dated = λ e. ground (arith, eq_iff o.time_in_force gtd, eq_iff o.expire_date "");
    sized = λ e. ground (arith, eq_iff o.entrust_type by_quantity);
    funded = λ e. ground (arith, eq_iff o.entrust_type by_amount);
  }

-- A leg that an accepted option order may have.
abbrev pub IsLegReady : {D : Type 0} → OrderLeg D → Type 0
IsLegReady leg =
    ((leg.instrument_type ≡ instrument_option)
      × (leg.symbol ≢ "")
      × (leg.strike_price.valid ≡ true)
      × (leg.expire_date ≢ "")
      × (leg.option_type ≢ ""))
    ⊎ ((leg.instrument_type ≡ instrument_equity) × (leg.symbol ≢ "") × (leg.quantity.valid ≡ true))

-- An accepted option order: a single leg exactly for the strategy SINGLE, else at least two legs, a
-- strategy and no group.
pub record IsOptionReady {D : Type 0} (o : Order D) : Type 0 where
  pub has_strategy : o.option_strategy ≢ ""
  pub single : (o.option_strategy ≡ strategy_single) ↔ (length o.legs ≡ 1)
  pub some_leg : 1 ≤ length o.legs
  pub alone : 2 ≤ length o.legs → o.combo_type ≡ normal
  pub legs : All IsLegReady o.legs

leg_checks-All :
    {D : Type 0} (ops : DecimalOps D) (i : ℕ) (legs : List (OrderLeg D))
    → Passes (leg_checks ops i legs)
    → All IsLegReady legs
unfolding leg_checks
leg_checks-All ops i [] h = tt
leg_checks-All ops i (leg ∷ legs) h = (
  ground (
    arith,
    eq_iff leg.instrument_type instrument_option,
    eq_iff leg.instrument_type instrument_equity,
    eq_iff leg.symbol "",
    eq_iff leg.expire_date "",
    eq_iff leg.option_type "",
  ),
  leg_checks-All ops (suc i) legs h.1.1.1.1,
)

module _ {D : Type 0} (ops : DecimalOps D) (o : Order D) where
  nonempty : is_empty o.legs ≡ false → 1 ≤ length o.legs
  nonempty h = ground arith

  strategy_checks-IsOptionReady :
      (o.option_strategy == "" && beq (length o.legs) 1) ≡ false
      → Passes (strategy_checks ops o)
      → Passes (leg_checks ops 0 o.legs)
      → IsOptionReady o
  unfolding strategy_checks
  strategy_checks-IsOptionReady d h k =
      let some_leg : 1 ≤ length o.legs = nonempty h.0 in
      record {
        has_strategy = ground (arith, eq_iff o.option_strategy "");
        single = (
          (λ e. ground (arith, eq_iff o.option_strategy strategy_single)),
          (λ e.
              ground
                (arith, eq_iff o.option_strategy strategy_single, eq_iff o.option_strategy "")),
        );
        some_leg = some_leg;
        alone = λ l. ground (
          arith,
          eq_iff o.option_strategy strategy_single,
          eq_iff o.option_strategy "",
          eq_iff o.combo_type normal,
        );
        legs = leg_checks-All ops 0 o.legs k;
      }

length-map {ℓ κ} :
    {A : Type ℓ} {B : Type κ} (f : A → B) (xs : List A) → length (map f xs) ≡ length xs
length-map f [] = refl
length-map f (x ∷ xs) = ap suc (length-map f xs)

All-of {ℓ κ μ} :
    {A : Type ℓ} (P : A → Type κ) (Q : A → Type μ) (f : A → A) (h : (a : A) → P a → Q (f a))
    (xs : List A)
    → All P xs
    → All Q (map f xs)
All-of P Q f h [] p = tt
All-of P Q f h (x ∷ xs) p = (h x p.0, All-of P Q f h xs p.1)

-- What holds of an order that prepare has accepted.
pub record IsReady {D : Type 0} (ops : DecimalOps D) (o : Order D) : Type 0 where
  pub id_length : (10 ≤ len o.client_order_id) × (len o.client_order_id ≤ 40)
  pub complete : IsComplete o
  pub permitted : IsPermitted ops o
  pub option : o.instrument_type ≡ instrument_option → IsOptionReady o
  pub whole_legs : o.instrument_type ≡ instrument_option → All (IsWholeLeg ops o) o.legs

module _ {D : Type 0} (ops : DecimalOps D) (o : Order D) where
  option_checks-split :
      o.instrument_type ≡ instrument_option
      → Passes (option_checks ops o)
      → Passes (strategy_checks ops o) × Passes (leg_checks ops 0 o.legs)
  unfolding option_checks
  option_checks-split e h =
      let t : (o.instrument_type == instrument_option) ≡ true =
        (eq_iff o.instrument_type instrument_option).1 e in
      Passes-split (strategy_checks ops o) _ (rw t at h)

default_settles :
    (s : String) (n : ℕ)
    → ((if s == "" && beq n 1 then strategy_single else s) == "" && beq n 1) ≡ false
default_settles s n = elim (Bool-cases (s == "" && beq n 1)) [ inl e ↦ rw e | inr e ↦ rw (e, e) ]

module _ {D : Type 0} (ops : DecimalOps D) (o : Order D) where
  default_is_set :
      (o.instrument_type == instrument_option) ≡ true
      → ((fill_option ops o).option_strategy == "" && beq (length (fill_option ops o).legs) 1)
        ≡ false
  unfolding fill_option
  default_is_set t =
      rw t (
        rw (length-map (fill_leg ops o) o.legs) (default_settles o.option_strategy (length o.legs)))

  option_ready :
      Passes (option_checks ops (fill_option ops o))
      → o.instrument_type ≡ instrument_option
      → IsOptionReady (fill_option ops o)
  unfolding fill_option
  option_ready h e =
      let (s, l) = option_checks-split ops (fill_option ops o) e h in
      strategy_checks-IsOptionReady ops (fill_option ops o)
        (default_is_set ((eq_iff o.instrument_type instrument_option).1 e)) s l

  default_kind :
      (k : String)
      → (default_to instrument_option k ≡ instrument_option) ⊎ (default_to instrument_option k ≡ "")
      → (k ≡ instrument_option) ⊎ (k ≡ "")
  default_kind k = elim (Bool-cases (k == "")) [
    | inl e ↦ λ h. inr ((eq_iff k "").0 e)
    | inr e ↦ λ h. rw e at h
  ]

  -- A leg that takes the size of the order is whole as the order is.
  fill_leg-IsWholeLeg :
      (o.quantity.valid ≡ true → scale ops o.quantity.decimal ≡ 0)
      → (leg : OrderLeg D) → IsWholeLeg ops o leg
      → IsWholeLeg ops o (fill_leg ops o leg)
  unfolding fill_leg leg_quantity leg_defaults
  fill_leg-IsWholeLeg w leg h =
      elim (Bool-cases (
        default_to instrument_option leg.instrument_type == instrument_option
        && not leg.quantity.valid)) [
          | inl e ↦ rw e (λ k v. w v)
          | inr e ↦ rw e (λ k v. h (default_kind leg.instrument_type k) v)
        ]

  filled_legs :
      Passes (validate_asset ops o)
      → o.instrument_type ≡ instrument_option
      → All (IsWholeLeg ops o) (fill_option ops o).legs
  unfolding fill_option
  filled_legs h e =
      let w = ((validate_asset-IsPermitted ops o h).option e).whole in
      rw ((eq_iff o.instrument_type instrument_option).1 e) (
        All-of _ _ (fill_leg ops o) (fill_leg-IsWholeLeg w) o.legs
          (validate_asset-whole_legs ops o e h))

  checks-IsReady :
      (10 ≤ len o.client_order_id) × (len o.client_order_id ≤ 40)
      → Passes (checks ops o)
      → IsReady ops (fill_option ops o)
  unfolding checks fill_option
  checks-IsReady n h =
      let (basic, rest) = Passes-split (basic_checks ops o) _ h in
      let (asset, opt) = Passes-split (validate_asset ops o) _ rest in
      record {
        id_length = n;
        complete = basic_checks-IsComplete ops o basic;
        permitted = validate_asset-IsPermitted ops o asset;
        option = option_ready opt;
        whole_legs = filled_legs asset;
      }

report_valid : (cs : List Check) → verdict_of (report cs) ≡ valid → Passes cs
report_valid cs h = (report_iff cs).0 (nothing (report cs) h)
  where
    nothing : (ps : List Problem) → verdict_of ps ≡ valid → ps ≡ []
    nothing [] e = refl
    nothing (p ∷ ps) e = cc

good_length : (id : String) → bad_id_length id ≡ false → (10 ≤ len id) × (len id ≤ 40)
unfolding bad_id_length
good_length id h = ground arith

prepare_named-IsReady :
    {D : Type 0} (ops : DecimalOps D) (o : Order D)
    → (prepare_named ops o).1 ≡ valid
    → IsReady ops (prepare_named ops o).0
unfolding prepare_named check_filled fill
prepare_named-IsReady ops o h = elim (Bool-cases (bad_id_length o.client_order_id)) [
  | inl e ↦ cc (rw e at h)
  | inr e ↦ rw e (
      checks-IsReady ops (fill ops o) (good_length o.client_order_id e)
        (report_valid _ (rw e at h)))
]

-- An order that prepare accepts is left ready to send: its identifier has 10 to 40 bytes, the fields
-- that its type, time in force and size call for are set, the limits of its asset class are kept, and
-- an option order has a strategy with the legs that this needs, each complete and
-- for a whole number of contracts.
pub prepare-IsReady :
    {D : Type 0} (ops : DecimalOps D) (fresh : String) (o : Order D)
    → (prepare ops fresh o).1 ≡ valid
    → IsReady ops (prepare ops fresh o).0
unfolding prepare
prepare-IsReady ops fresh o h = prepare_named-IsReady ops (with_id ops fresh o) h
