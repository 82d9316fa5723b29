-- ===== src/Trade/Accounts/Margins.antt =====
-- Margin figures that a response leaves out (Balance of trade/accounts.go).
use webull.Common.{arith, String, ◌≡◌, ◌↔◌, true, false, List, [], ◌∷◌, All}
use webull.Errors.{Result, ok}
use webull.Trade.Decimal.{NullDecimal, absent}
use webull.Json.{Fields, Reader, read_field, null_decimal_json}
use webull.Json.Lookup.{find_field, is_once}
use webull.Json.Blank.{is_left_out, read_field-absent_iff}
use webull.Trade.Accounts.{Balance}
use webull.Trade.Accounts.Zero.{zero_balance}
use webull.Trade.Accounts.Decoding.{decode_balance}

-- The margin figures, by their keys.
abbrev pub margins : {D : Type 0} → Balance D → List (String × NullDecimal D)
margins b =
    ("maintenance_margin", b.maintenance_margin)
    ∷ ("used_margin", b.used_margin)
    ∷ ("used_margin_for_open_order", b.used_margin_for_open_order)
    ∷ ("init_margin", b.init_margin)
    ∷ ("intraday_margin", b.intraday_margin)
    ∷ ("margin_excess", b.margin_excess)
    ∷ ("margin_ratio", b.margin_ratio)
    ∷ []

abbrev pub margin_keys : List String
margin_keys =
    "maintenance_margin" ∷ "used_margin" ∷ "used_margin_for_open_order" ∷ "init_margin"
    ∷ "intraday_margin" ∷ "margin_excess" ∷ "margin_ratio" ∷ []

module _ {D T : Type 0} (r : Reader D T) (fs : Fields) where
  abbrev read_margin : String → Result (NullDecimal D)
  read_margin k = read_field k (null_decimal_json r) (absent r.ops) fs

  -- Each figure was read from its key.
  margins_read :
      (b : Balance D)
      → decode_balance r (zero_balance r) fs ≡ ok b
      → All (λ p. read_margin p.0 ≡ ok p.1) (margins b)
  unfolding decode_balance
  margins_read b h = ground arith

  left_out :
      (ms : List (String × NullDecimal D))
      → All (λ p. read_margin p.0 ≡ ok p.1) ms
      → All (λ p. is_once p.0 fs ≡ true) ms
      → All (λ p. (p.1.valid ≡ false) ↔ (is_left_out (find_field p.0 fs) ≡ true)) ms
  left_out [] h o = tt
  left_out ((k, n) ∷ ms) (h, hs) (o, os) = (read_field-absent_iff r k fs n o h, left_out ms hs os)

  -- Of a balance that is decoded, from a response that names each margin figure once at most, a figure is
  -- absent, and not a zero, exactly if the response leaves it out, or has null or an empty text for it.
  pub decode_balance-absent_iff :
      (b : Balance D)
      → decode_balance r (zero_balance r) fs ≡ ok b
      → All (λ k. is_once k fs ≡ true) margin_keys
      → All (λ p. (p.1.valid ≡ false) ↔ (is_left_out (find_field p.0 fs) ≡ true)) (margins b)
  decode_balance-absent_iff b h o = left_out (margins b) (margins_read b h) o
