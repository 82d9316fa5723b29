-- ===== src/Trade/Decimal.antt =====
-- Decimals as the trade package uses them: wire.Decimal and wire.NullDecimal (internal/wire/decimal.go)
-- over a decimal type of github.com/shopspring/decimal, which is a parameter; clear (trade/orders.go)
-- and scale (trade/assets.go).
use webull.Common.{ℕ, ◌≡◌, Bool, true, false, List, [], ◌∷◌, arith, beq, if◌then◌else◌, length}

-- What the package calls of shopspring's decimals: the zero value and the text form.
pub record DecimalOps (D : Type 0) : Type 0 where
  pub zero_value : D
  pub to_text : D → List ℕ

pub record NullDecimal (D : Type 0) : Type 0 where
  pub decimal : D
  pub valid : Bool

-- The number of characters behind the first point of a text, 0 if there is none.
unfoldable pub digits_after_point : List ℕ → ℕ
digits_after_point [] = 0
digits_after_point (c ∷ cs) = if beq c b'.' then length cs else digits_after_point cs

module _ {D : Type 0} (ops : DecimalOps D) where
  abbrev pub absent : NullDecimal D
  absent = record { decimal = ops.zero_value; valid = false }

  abbrev pub present : D → NullDecimal D
  present d = record { decimal = d; valid = true }

  -- clear: an unset value loses its stale payload.
  unfoldable pub clear : NullDecimal D → NullDecimal D
  clear n = if n.valid then n else absent

  -- scale: the decimal places that the text form of a decimal shows.
  unfoldable pub scale : D → ℕ
  unfolding digits_after_point
  scale d = digits_after_point (ops.to_text d)

  pub clear-valid : (n : NullDecimal D) → (clear n).valid ≡ n.valid
  unfolding clear
  clear-valid n = ground arith

  pub clear_idem : (n : NullDecimal D) → clear (clear n) ≡ clear n
  unfolding clear
  clear_idem n = ground arith
