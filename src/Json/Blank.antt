-- ===== src/Json/Blank.antt =====
-- When a nullable decimal of a response is absent (internal/wire/decimal.go).
use webull.Common.{
  String, ◌≡◌, refl, ◌∙◌, ◌↔◌, sym, Bool, true, false, Option, none, some, inl, inr, Bool-cases,
}
use webull.Errors.{Result, ◌>>=◌, ok, err}
use webull.Trade.Decimal.{NullDecimal, absent, present}
use webull.Json.{Json, Fields, read_field, is_blank, Reader, read_decimal, null_decimal_json}
use webull.Json.Lookup.{find_field, is_once, decode_found, read_field-once}

-- The object leaves the field out, or has a blank there.
abbrev pub is_left_out : Option Json → Bool
is_left_out none = true
is_left_out (some v) = is_blank v

module _ {D T : Type 0} (r : Reader D T) where
  decimal_ok :
      (m : Result D) (n : NullDecimal D) → (m >>= λ d. ok (present r.ops d)) ≡ ok n → n.valid ≡ true
  decimal_ok (ok d) n h = cc
  decimal_ok (err e) n h = cc

  found-valid :
      (o : Option Json) (n : NullDecimal D)
      → decode_found (null_decimal_json r) (absent r.ops) o ≡ ok n
      → (n.valid ≡ false) ↔ (is_left_out o ≡ true)
  unfolding null_decimal_json
  found-valid none n h = ((λ e. refl), (λ e. cc))
  found-valid (some v) n h = elim (Bool-cases (is_blank v)) [
    | inl e ↦ let f : ok (absent r.ops) ≡ ok n = rw e at h in ((λ x. e), (λ x. cc))
    | inr e ↦ let f = decimal_ok (read_decimal r v) n (rw e at h) in ((λ x. cc), (λ x. cc))
  ]

  -- A nullable decimal is absent just where the response leaves it out or blank.
  pub read_field-absent_iff :
      (k : String) (fs : Fields) (n : NullDecimal D)
      → is_once k fs ≡ true
      → read_field k (null_decimal_json r) (absent r.ops) fs ≡ ok n
      → (n.valid ≡ false) ↔ (is_left_out (find_field k fs) ≡ true)
  read_field-absent_iff k fs n o h =
      found-valid (find_field k fs) n
        (sym (read_field-once k (null_decimal_json r) (absent r.ops) fs o) ∙ h)
