-- ===== src/Trade/Occ.antt =====
-- Option symbols: LegFromSymbol of trade/orders.go. A decimal's reader is a parameter.
pub mod RoundTrip
use webull.Common.{
  ℕ, ◌+◌, ◌-◌, ◌*◌, ◌%◌, String, Bool, false, not, ◌&&◌, ◌||◌, Option, none, some, List, [], ◌∷◌,
  leb, beq, if◌then◌else◌, length, take, drop, all_of,
}
use webull.Errors.{Result, text, wrap, ok, err}
use webull.Trade.Enums.{market, call, put}
use webull.Trade.Decimal.{DecimalOps, absent, present}
use webull.Trade.Order.{OrderLeg}
use Prim.Native.String.{◌++◌ as ◌<>◌}
use Prim.Native.Char.{Char, code}

-- A text as the list of its characters.
abbrev pub chars : String → List Char
chars String.[] = []
chars (String.◌∷◌ c s) = c ∷ chars s

abbrev pub text_of : List Char → String
text_of [] = String.[]
text_of (c ∷ cs) = String.◌∷◌ c (text_of cs)

-- The last fifteen characters: year, month and day, the kind and the strike.
pub record OccTail : Type 0 where
  pub y1 : Char
  pub y2 : Char
  pub m1 : Char
  pub m2 : Char
  pub d1 : Char
  pub d2 : Char
  pub kind : Char
  pub s1 : Char
  pub s2 : Char
  pub s3 : Char
  pub s4 : Char
  pub s5 : Char
  pub s6 : Char
  pub s7 : Char
  pub s8 : Char

abbrev pub tail_of : OccTail → List Char
tail_of o =
    o.y1 ∷ o.y2 ∷ o.m1 ∷ o.m2 ∷ o.d1 ∷ o.d2 ∷ o.kind ∷ o.s1 ∷ o.s2 ∷ o.s3 ∷ o.s4 ∷ o.s5 ∷ o.s6
    ∷ o.s7 ∷ o.s8 ∷ []

unfoldable pub read_tail : List Char → Option OccTail
read_tail (y1 ∷ y2 ∷ m1 ∷ m2 ∷ d1 ∷ d2 ∷ kind ∷ s1 ∷ s2 ∷ s3 ∷ s4 ∷ s5 ∷ s6 ∷ s7 ∷ s8 ∷ []) =
    some (record {
      y1 = y1;
      y2 = y2;
      m1 = m1;
      m2 = m2;
      d1 = d1;
      d2 = d2;
      kind = kind;
      s1 = s1;
      s2 = s2;
      s3 = s3;
      s4 = s4;
      s5 = s5;
      s6 = s6;
      s7 = s7;
      s8 = s8;
    })
read_tail _ = none

abbrev pub is_upper : Char → Bool
is_upper c = leb b'A' (code c) && leb (code c) b'Z'

abbrev pub is_decimal : Char → Bool
is_decimal c = leb b'0' (code c) && leb (code c) b'9'

abbrev is_root_char : Char → Bool
is_root_char c = is_upper c || is_decimal c || beq (code c) b'.'

-- [A-Z][A-Z0-9.]*
unfoldable pub is_root : List Char → Bool
is_root [] = false
is_root (c ∷ cs) = is_upper c && all_of is_root_char cs

-- (\d{6})([CP])(\d{8})
unfoldable pub is_tail : OccTail → Bool
is_tail o =
    all_of is_decimal (o.y1 ∷ o.y2 ∷ o.m1 ∷ o.m2 ∷ o.d1 ∷ o.d2 ∷ [])
    && (beq (code o.kind) b'C' || beq (code o.kind) b'P')
    && all_of is_decimal (o.s1 ∷ o.s2 ∷ o.s3 ∷ o.s4 ∷ o.s5 ∷ o.s6 ∷ o.s7 ∷ o.s8 ∷ [])

abbrev checked : List Char → Option OccTail → Option (List Char × OccTail)
checked root none = none
checked root (some o) = if is_root root && is_tail o then some (root, o) else none

-- occSymbol.FindStringSubmatch: the fixed tail leaves one way to split.
unfoldable pub find_submatch : List Char → Option (List Char × OccTail)
find_submatch cs = let n = length cs - 15 in checked (take n cs) (read_tail (drop n cs))

abbrev pub two_digits : Char → Char → ℕ
two_digits a b = (code a - b'0') * 10 + (code b - b'0')

-- A two-digit year of time.Parse: 69 to 99 are in the last century.
abbrev pub is_last_century : OccTail → Bool
is_last_century o = leb 69 (two_digits o.y1 o.y2)

abbrev pub year_of : OccTail → ℕ
year_of o = if is_last_century o then 1900 + two_digits o.y1 o.y2 else 2000 + two_digits o.y1 o.y2

abbrev is_leap : ℕ → Bool
is_leap y = beq (y % 4) 0 && (not (beq (y % 100) 0) || beq (y % 400) 0)

-- daysIn, for a month from 1 to 12.
abbrev days_in : ℕ → ℕ → ℕ
days_in m y =
    if beq m 2
    then if is_leap y then 29 else 28
    else if beq m 4 || beq m 6 || beq m 9 || beq m 11
    then 30
    else 31

-- time.Parse("060102", …) succeeds.
unfoldable pub is_date : OccTail → Bool
is_date o =
    let m = two_digits o.m1 o.m2 in
    let d = two_digits o.d1 o.d2 in leb 1 m && leb m 12 && leb 1 d && leb d (days_in m (year_of o))

-- expiry.Format("2006-01-02")
abbrev pub date_text : OccTail → String
date_text o =
    (if is_last_century o then "19" else "20")
    <> text_of (o.y1 ∷ o.y2 ∷ "-" ∷ o.m1 ∷ o.m2 ∷ "-" ∷ o.d1 ∷ o.d2 ∷ [])

-- What the code calls of shopspring's decimals: RequireFromString with Shift(-3).
pub record StrikeReader (D : Type 0) : Type 0 where
  pub ops : DecimalOps D
  pub thousandths : String → D

module _ {D : Type 0} (reader : StrikeReader D) where
  abbrev pub leg_of : List Char → OccTail → OrderLeg D
  leg_of root o = record {
    side = "";
    quantity = absent reader.ops;
    market = "";
    instrument_type = "";
    symbol = text_of root;
    strike_price =
        present reader.ops (
          reader.thousandths
            (text_of (o.s1 ∷ o.s2 ∷ o.s3 ∷ o.s4 ∷ o.s5 ∷ o.s6 ∷ o.s7 ∷ o.s8 ∷ [])));
    expire_date = date_text o;
    option_type = if beq (code o.kind) b'P' then put else call;
  }

  abbrev pub with_expiry : Option (List Char × OccTail) → Result (OrderLeg D)
  with_expiry none = err (text "trade: not an OCC option symbol")
  with_expiry (some (root, o)) =
      if is_date o
      then ok (leg_of root o)
      else err (wrap "trade: invalid expiry" (text "time.Parse"))

  -- LegFromSymbol
  unfoldable pub leg_from_symbol : String → Result (OrderLeg D)
  leg_from_symbol s = with_expiry (find_submatch (chars s))
