-- ===== src/Query.antt =====
-- Query parameters: internal/query/query.go over url.Values.
pub mod Laws
pub mod Sorted
pub mod Tables
use webull.Common.{
  String, ◌≢◌, Bool, true, false, Option, none, some, List, [], ◌∷◌, ◌==◌, if◌then◌else◌, is_empty,
  All,
}
use webull.Common.Int.{ℤ, beq_ℤ, pos}
use webull.Common.Numerals.{itoa}
use webull.Transport.Url.{Values}
use Prim.Native.String.{◌++◌ as ◌<>◌}

-- The values of a key.
abbrev pub find_values : String → Values → Option (List String)
find_values k [] = none
find_values k ((j, vs) ∷ q) = if j == k then some vs else find_values k q

-- A key stands once, as in a map.
abbrev pub IsQuery : Values → Type 0
IsQuery [] = Unit
IsQuery ((k, vs) ∷ q) = All (λ p. k ≢ p.0) q × IsQuery q

-- url.Values.Set
unfoldable pub put_value : String → String → Values → Values
put_value k v [] = (k, v ∷ []) ∷ []
put_value k v ((j, vs) ∷ q) =
    let rest = put_value k v q in if j == k then (k, v ∷ []) ∷ q else (j, vs) ∷ rest

-- Params.Set
unfoldable pub set_value : String → String → Values → Values
set_value k v q = if v == "" then q else put_value k v q

abbrev pub join_commas : List String → String
join_commas [] = ""
join_commas (s ∷ []) = s
join_commas (s ∷ t ∷ ss) = s <> "," <> join_commas (t ∷ ss)

-- Params.SetList
unfoldable pub set_list : String → List String → Values → Values
set_list k vs q = if is_empty vs then q else put_value k (join_commas vs) q

-- Params.SetInt
unfoldable pub set_number : String → ℤ → Values → Values
set_number k n q = if beq_ℤ n (pos 0) then q else put_value k (itoa n) q

-- strconv.FormatBool
abbrev pub format_bool : Bool → String
format_bool true = "true"
format_bool false = "false"

-- Params.SetBool
unfoldable pub set_flag : String → Option Bool → Values → Values
set_flag k none q = q
set_flag k (some b) q = put_value k (format_bool b) q
