-- ===== src/Json.antt =====
-- What encoding/json makes of a response: values, and the decoding of an object into a struct, with the
-- decoders of decimals of internal/wire/decimal.go. The text of a response is parsed by encoding/json; the
-- reading of a decimal's text and time.Parse are parameters. Texts with escapes in a decimal or a time are
-- not considered.
-- A field is read from its keys in their order, one field after the other, so that of several errors in an
-- object it may be another one than that of encoding/json which is reported.
pub mod Lookup
pub mod Blank
pub mod Times
pub mod Samples
use webull.Common.{
  ℕ, true, false, String, Bool, Option, none, some, List, [], ◌∷◌, if◌then◌else◌, ◌==◌, ◌||◌,
}
use webull.Common.Int.{ℤ, pos, beq_ℤ}
use webull.Common.Numerals.Reading.{parse_int}
use webull.Errors.{Result, ◌>>=◌, text, ok, err}
use webull.Transport.Http.{same_key}
use webull.Trade.Decimal.{DecimalOps, NullDecimal, absent, present}

mutual
  -- A number is held as its text.
  pub data Json : Type 0 where
    null : Json
    bool : Bool → Json
    number : String → Json
    string : String → Json
    array : Items → Json
    object : Fields → Json

  pub data Items : Type 0 where
    nil : Items
    cons : Json → Items → Items

  pub data Fields : Type 0 where
    end : Fields
    field : String → Json → Fields → Fields

abbrev mismatch : String
mismatch = "json: cannot unmarshal"

-- A decoder is given the value that stands there already.
abbrev pub Decoder {ℓ} : Type ℓ → Type ℓ
Decoder A = A → Json → Result A

-- A key of the object names the struct's field whatever its case; a later one overwrites.
unfoldable pub read_field {ℓ} : {A : Type ℓ} → String → Decoder A → A → Fields → Result A
read_field k dec a end = ok a
read_field k dec a (field j v fs) =
    let read = dec a v >>= λ b. read_field k dec b fs in
    let rest = read_field k dec a fs in if same_key j k then read else rest

-- Texts, Booleans and integers take no null.
unfoldable pub text_json : Decoder String
text_json a null = ok a
text_json a (string s) = ok s
text_json a _ = err (text mismatch)

unfoldable pub bool_json : Decoder Bool
bool_json a null = ok a
bool_json a (bool b) = ok b
bool_json a _ = err (text mismatch)

abbrev parsed : Option ℤ → Result ℤ
parsed none = err (text mismatch)
parsed (some n) = ok n

unfoldable pub int_json : Decoder ℤ
int_json a null = ok a
int_json a (number t) = parsed (parse_int t)
int_json a _ = err (text mismatch)

-- A struct in a field.
unfoldable pub struct_json {ℓ} : {A : Type ℓ} → (A → Fields → Result A) → Decoder A
struct_json dec a null = ok a
struct_json dec a (object fs) = dec a fs
struct_json dec a _ = err (text mismatch)

-- The elements of a slice, each from its zero value.
unfoldable pub items_json {ℓ} : {A : Type ℓ} → A → Decoder A → Items → Result (List A)
items_json zero dec nil = ok []
items_json zero dec (cons v vs) =
    dec zero v >>= λ a. items_json zero dec vs >>= λ rest. ok (a ∷ rest)

unfoldable pub list_json {ℓ} : {A : Type ℓ} → A → Decoder A → Decoder (List A)
list_json zero dec a null = ok []
list_json zero dec a (array vs) = items_json zero dec vs
list_json zero dec a _ = err (text mismatch)

-- isJSONBlank
unfoldable pub is_blank : Json → Bool
is_blank null = true
is_blank (string s) = s == ""
is_blank _ = false

-- A value as the text that it holds, if it is a text or a number.
abbrev pub literal : Json → Option String
literal (string s) = some s
literal (number t) = some t
literal _ = none

-- What is read of decimals and times; `T` stands for the values of time.Time. `parse_time` is time.Parse with a layout and a text by its codes, `utc` is UTC, and `std_time` is
-- UnmarshalJSON of time.Time.
pub record Reader (D T : Type 0) : Type 0 where
  pub ops : DecimalOps D
  pub decimal_of : String → Option D
  pub zero_time : T
  pub parse_time : String → List ℕ → Option T
  pub utc : T → T
  pub std_time : Decoder T

module _ {D T : Type 0} (r : Reader D T) where
  abbrev decimal_text : Option String → Option D
  decimal_text none = none
  decimal_text (some s) = r.decimal_of s

  abbrev or_mismatch : Option D → Result D
  or_mismatch none = err (text "can't convert to decimal")
  or_mismatch (some d) = ok d

  abbrev pub read_decimal : Json → Result D
  read_decimal v = or_mismatch (decimal_text (literal v))

  -- Decimal.UnmarshalJSON
  unfoldable pub decimal_json : Decoder D
  decimal_json a v = if is_blank v then ok r.ops.zero_value else read_decimal v

  -- NullDecimal.UnmarshalJSON
  unfoldable pub null_decimal_json : Decoder (NullDecimal D)
  null_decimal_json a v =
      if is_blank v then ok (absent r.ops) else read_decimal v >>= λ d. ok (present r.ops d)
