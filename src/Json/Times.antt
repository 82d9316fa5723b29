-- ===== src/Json/Times.antt =====
-- Times in responses: Millis of internal/wire/millis.go and Time of internal/wire/time.go.
pub mod RoundTrip
use webull.Common.{
  ℕ, ◌<◌, String, Bool, true, false, Option, none, some, List, [], ◌∷◌, if◌then◌else◌, ◌==◌, ◌||◌,
  ◌&&◌, beq, leb, length, codes,
}
use webull.Common.Int.{ℤ, pos, beq_ℤ}
use webull.Common.Numerals.{itoa}
use webull.Common.Numerals.Reading.{parse_int}
use webull.Errors.{Result, text, ok, err}
use webull.Transport.Url.{utf8}
use webull.Json.{Json, null, number, string, Decoder, literal, Reader}

abbrev pub millis_number : Option ℤ → Result (Option ℤ)
millis_number none = err (text "webull: not an epoch-millisecond time")
millis_number (some n) = ok (if beq_ℤ n (pos 0) then none else some n)

abbrev millis_literal : Option String → Result (Option ℤ)
millis_literal none = err (text "webull: not an epoch-millisecond time")
millis_literal (some s) = if s == "" || s == "null" then ok none else millis_number (parse_int s)

-- Millis.UnmarshalJSON, with the zero time as none.
unfoldable pub millis_json : Decoder (Option ℤ)
millis_json a null = ok none
millis_json a v = millis_literal (literal v)

-- Millis.MarshalJSON
unfoldable pub millis_marshal : Option ℤ → Json
millis_marshal none = null
millis_marshal (some n) = number (itoa n)

-- offsetWithoutColon
abbrev is_digit : ℕ → Bool
is_digit c = leb b'0' c && leb c b'9'

abbrev is_sign : ℕ → Bool
is_sign c = beq c b'+' || beq c b'-'

abbrev pub is_offset : List ℕ → Bool
is_offset (s ∷ a ∷ b ∷ c ∷ d ∷ []) =
    is_sign s && is_digit a && is_digit b && is_digit c && is_digit d
is_offset _ = false

-- The text with a colon in the three characters and two that end it.
abbrev pub colon_after : List ℕ → List ℕ
colon_after (s ∷ a ∷ b ∷ rest) = s ∷ a ∷ b ∷ b':' ∷ rest
colon_after cs = cs

unfoldable pub normalised : List ℕ → List ℕ
normalised [] = []
normalised (c ∷ cs) =
    let rest = normalised cs in if is_offset (c ∷ cs) then colon_after (c ∷ cs) else c ∷ rest

abbrev pub rfc_3339 : String
rfc_3339 = "2006-01-02T15:04:05.999999999Z07:00"

abbrev pub iso_layout : String
iso_layout = "2006-01-02T15:04:05.000-0700"

module _ {D T : Type 0} (r : Reader D T) where
  abbrev pub recognised : (T → T) → Option T → Result T
  recognised f none = err (text "webull: not a recognised time")
  recognised f (some t) = ok (f t)

  unfoldable pub parse_text : String → Result T
  parse_text s =
      if s == "" || s == "null"
      then ok r.zero_time
      else if beq (length (utf8 s)) 10
      then recognised (λ t. t) (r.parse_time "2006-01-02" (codes s))
      else if beq (length (utf8 s)) 8
      then recognised (λ t. t) (r.parse_time "20060102" (codes s))
      else recognised r.utc (r.parse_time rfc_3339 (normalised (codes s)))

  abbrev parse_literal : Option String → Result T
  parse_literal none = err (text "webull: not a recognised time")
  parse_literal (some s) = parse_text s

  -- Time.UnmarshalJSON
  unfoldable pub time_json : Decoder T
  time_json t null = ok r.zero_time
  time_json t v = parse_literal (literal v)

  -- Time.MarshalJSON, with IsZero and Format of time.Time.
  unfoldable pub time_marshal : (T → Bool) → (String → T → String) → T → Json
  time_marshal is_zero format t = if is_zero t then null else string (format iso_layout (r.utc t))
