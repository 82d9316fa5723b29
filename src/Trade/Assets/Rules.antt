-- ===== src/Trade/Assets/Rules.antt =====
-- What the table of asset classes comes to, class by class (trade/assets.go).
use webull.Common.{
  ℕ, suc, ◌≤◌, String, ◌≡◌, ap, ◌≢◌, ◌⊎◌, true, false, not, ◌&&◌, some, List, [], ◌∷◌, ◌++◌, arith,
  ◌==◌, eq_iff, All, contains,
}
use webull.Trade.Enums.{normal, instrument_option}
use webull.Trade.Decimal.{DecimalOps, scale}
use webull.Trade.Order.{OrderLeg, Order}
use webull.Trade.Assets.{
  Check, AssetRule, known_sides, known_types, known_tifs, known_entrust, equity_rule, option_rule,
  futures_rule, crypto_rule, event_rule, asset_rules, excluded, leg_scale_checks, over_scale,
  rule_checks, checks_of_rule, validate_asset,
}

-- No check of the list fails.
abbrev pub Passes : List Check → Type 0
Passes cs = All (λ c. c.0 ≡ false) cs

pub Passes-split : (cs ds : List Check) → Passes (cs ++ ds) → Passes cs × Passes ds
Passes-split [] ds h = (tt, h)
Passes-split (c ∷ cs) ds h = let (l, r) = Passes-split cs ds h.1 in ((h.0, l), r)

-- A value that is known is one of those allowed; an unknown one is left to the server.
abbrev pub Among : List String → List String → String → Type 0
Among known allowed v = contains known v ≡ true → contains allowed v ≡ true

excluded-Among :
    (known allowed : List String) (v : String)
    → excluded known allowed v ≡ false
    → Among known allowed v
unfolding excluded
excluded-Among known allowed v h k = ground arith

module _ {D : Type 0} (ops : DecimalOps D) (o : Order D) where
  record Obeys (rule : AssetRule) : Type 0 where
    side : excluded known_sides rule.sides o.side ≡ false
    order_type : excluded known_types rule.order_types o.order_type ≡ false
    tif : excluded known_tifs rule.tifs o.time_in_force ≡ false
    entrust : excluded known_entrust rule.entrust o.entrust_type ≡ false
    places : over_scale ops rule o.quantity ≡ false
    legs : Passes (leg_scale_checks ops 0 o.legs)
    outcome_given : rule.need_outcome && o.event_outcome == "" ≡ false
    outcome_absent : not rule.need_outcome && not (o.event_outcome == "") ≡ false
    grouping : not (o.combo_type == normal) && not rule.combos ≡ false

  rule_checks-Obeys : (rule : AssetRule) → Passes (rule_checks ops rule o) → Obeys rule
  unfolding rule_checks
  rule_checks-Obeys rule h =
      let (legs, rest) = Passes-split (leg_scale_checks ops 0 o.legs) _ h.1.1.1.1.1 in
      record {
        side = h.0;
        order_type = h.1.0;
        tif = h.1.1.0;
        entrust = h.1.1.1.0;
        places = h.1.1.1.1.0;
        legs = legs;
        outcome_given = rest.0;
        outcome_absent = rest.1.0;
        grouping = rest.1.1.0;
      }

  validate_asset-Obeys :
      {rule : AssetRule}
      → asset_rules o.instrument_type ≡ some rule
      → Passes (validate_asset ops o)
      → Obeys rule
  unfolding validate_asset checks_of_rule
  validate_asset-Obeys {rule} e h = rule_checks-Obeys rule (rw e at h)

  -- The numbers of contracts of option legs are whole.
  abbrev pub IsWholeLeg : OrderLeg D → Type 0
  IsWholeLeg leg =
      (leg.instrument_type ≡ instrument_option) ⊎ (leg.instrument_type ≡ "")
      → leg.quantity.valid ≡ true
      → scale ops leg.quantity.decimal ≡ 0

  whole_legs :
      (i : ℕ) (legs : List (OrderLeg D))
      → Passes (leg_scale_checks ops i legs)
      → All IsWholeLeg legs
  unfolding leg_scale_checks
  whole_legs i [] h = tt
  whole_legs i (leg ∷ legs) h = (
    (λ e v.
        ground
          (arith, eq_iff leg.instrument_type instrument_option, eq_iff leg.instrument_type "")),
    whole_legs (suc i) legs h.1,
  )

  -- The sides, types, times in force and sizes that an order may have, by their texts.
  abbrev pub IsLimited : List String → List String → List String → List String → Type 0
  IsLimited sides types tifs sizes = record {
    side : Among ("BUY" ∷ "SELL" ∷ "SHORT" ∷ []) sides o.side;
    order_type :
        Among
          ("MARKET" ∷ "LIMIT" ∷ "STOP_LOSS" ∷ "STOP_LOSS_LIMIT" ∷ "TRAILING_STOP_LOSS"
            ∷ "MARKET_ON_OPEN" ∷ "MARKET_ON_CLOSE" ∷ "LIMIT_ON_OPEN" ∷ [])
          types o.order_type;
    tif : Among ("DAY" ∷ "GTC" ∷ "IOC" ∷ "GTD" ∷ "FOK" ∷ []) tifs o.time_in_force;
    entrust : Among ("QTY" ∷ "AMOUNT" ∷ []) sizes o.entrust_type;
  }

  Obeys-IsLimited :
      (rule : AssetRule) → Obeys rule → IsLimited rule.sides rule.order_types rule.tifs rule.entrust
  Obeys-IsLimited rule h = record {
    side = excluded-Among known_sides rule.sides o.side h.side;
    order_type = excluded-Among known_types rule.order_types o.order_type h.order_type;
    tif = excluded-Among known_tifs rule.tifs o.time_in_force h.tif;
    entrust = excluded-Among known_entrust rule.entrust o.entrust_type h.entrust;
  }

  -- The limits of event contracts.
  abbrev pub IsEventOrder : Type 0
  IsEventOrder = record {
    limited :
        IsLimited ("BUY" ∷ "SELL" ∷ []) ("LIMIT" ∷ []) ("DAY" ∷ "GTC" ∷ "IOC" ∷ "GTD" ∷ "FOK" ∷ [])
          ("QTY" ∷ []);
    outcome : o.event_outcome ≢ "";
    places : o.quantity.valid ≡ true → scale ops o.quantity.decimal ≤ 2;
    alone : o.combo_type ≡ "NORMAL";
  }

  event_rule-IsEventOrder : Obeys event_rule → IsEventOrder
  unfolding over_scale
  event_rule-IsEventOrder h = record {
    limited = Obeys-IsLimited event_rule h;
    outcome = ground (arith, eq_iff o.event_outcome "");
    places = λ v. ground arith;
    alone = ground (arith, eq_iff o.combo_type normal);
  }

  -- The limits of crypto orders.
  abbrev pub IsCryptoOrder : Type 0
  IsCryptoOrder = record {
    limited :
        IsLimited ("BUY" ∷ "SELL" ∷ []) ("MARKET" ∷ "LIMIT" ∷ "STOP_LOSS_LIMIT" ∷ [])
          ("DAY" ∷ "GTC" ∷ "IOC" ∷ []) ("QTY" ∷ "AMOUNT" ∷ []);
    no_outcome : o.event_outcome ≡ "";
    places : o.quantity.valid ≡ true → scale ops o.quantity.decimal ≤ 8;
    alone : o.combo_type ≡ "NORMAL";
  }

  crypto_rule-IsCryptoOrder : Obeys crypto_rule → IsCryptoOrder
  unfolding over_scale
  crypto_rule-IsCryptoOrder h = record {
    limited = Obeys-IsLimited crypto_rule h;
    no_outcome = ground (arith, eq_iff o.event_outcome "");
    places = λ v. ground arith;
    alone = ground (arith, eq_iff o.combo_type normal);
  }

  -- The limits of futures orders.
  abbrev pub IsFuturesOrder : Type 0
  IsFuturesOrder = record {
    limited :
        IsLimited ("BUY" ∷ "SELL" ∷ [])
          ("MARKET" ∷ "LIMIT" ∷ "STOP_LOSS" ∷ "STOP_LOSS_LIMIT" ∷ "TRAILING_STOP_LOSS" ∷ [])
          ("DAY" ∷ "GTC" ∷ []) ("QTY" ∷ []);
    no_outcome : o.event_outcome ≡ "";
    whole : o.quantity.valid ≡ true → scale ops o.quantity.decimal ≡ 0;
    alone : o.combo_type ≡ "NORMAL";
  }

  futures_rule-IsFuturesOrder : Obeys futures_rule → IsFuturesOrder
  unfolding over_scale
  futures_rule-IsFuturesOrder h = record {
    limited = Obeys-IsLimited futures_rule h;
    no_outcome = ground (arith, eq_iff o.event_outcome "");
    whole = λ v. ground arith;
    alone = ground (arith, eq_iff o.combo_type normal);
  }

  -- The limits of option orders.
  abbrev pub IsOptionOrder : Type 0
  IsOptionOrder = record {
    limited :
        IsLimited ("BUY" ∷ "SELL" ∷ "SHORT" ∷ [])
          ("MARKET" ∷ "LIMIT" ∷ "STOP_LOSS" ∷ "STOP_LOSS_LIMIT" ∷ []) ("DAY" ∷ "GTC" ∷ [])
          ("QTY" ∷ []);
    no_outcome : o.event_outcome ≡ "";
    whole : o.quantity.valid ≡ true → scale ops o.quantity.decimal ≡ 0;
  }

  option_rule-IsOptionOrder : Obeys option_rule → IsOptionOrder
  unfolding over_scale
  option_rule-IsOptionOrder h = record {
    limited = Obeys-IsLimited option_rule h;
    no_outcome = ground (arith, eq_iff o.event_outcome "");
    whole = λ v. ground arith;
  }

  -- Equity orders may be of any kind, but name no outcome.
  abbrev pub IsEquityOrder : Type 0
  IsEquityOrder = o.event_outcome ≡ ""

  equity_rule-IsEquityOrder : Obeys equity_rule → IsEquityOrder
  equity_rule-IsEquityOrder h = ground (arith, h.outcome_absent, eq_iff o.event_outcome "")

  -- What the asset checks establish, by the class of the order.
  abbrev pub IsPermitted : Type 0
  IsPermitted = record {
    event : o.instrument_type ≡ "EVENT" → IsEventOrder;
    crypto : o.instrument_type ≡ "CRYPTO" → IsCryptoOrder;
    futures : o.instrument_type ≡ "FUTURES" → IsFuturesOrder;
    option : o.instrument_type ≡ "OPTION" → IsOptionOrder;
    equity : o.instrument_type ≡ "EQUITY" → IsEquityOrder;
  }

  pub validate_asset-IsPermitted : Passes (validate_asset ops o) → IsPermitted
  unfolding asset_rules
  validate_asset-IsPermitted h = record {
    event = λ e. event_rule-IsEventOrder (validate_asset-Obeys (ap asset_rules e) h);
    crypto = λ e. crypto_rule-IsCryptoOrder (validate_asset-Obeys (ap asset_rules e) h);
    futures = λ e. futures_rule-IsFuturesOrder (validate_asset-Obeys (ap asset_rules e) h);
    option = λ e. option_rule-IsOptionOrder (validate_asset-Obeys (ap asset_rules e) h);
    equity = λ e. equity_rule-IsEquityOrder (validate_asset-Obeys (ap asset_rules e) h);
  }

  pub validate_asset-whole_legs :
      o.instrument_type ≡ instrument_option → Passes (validate_asset ops o) → All IsWholeLeg o.legs
  unfolding asset_rules
  validate_asset-whole_legs e h =
      whole_legs 0 o.legs (validate_asset-Obeys (ap asset_rules e) h).legs
