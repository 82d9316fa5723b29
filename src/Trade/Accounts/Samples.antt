-- ===== src/Trade/Accounts/Samples.antt =====
-- A balance with one blank margin figure and one figure that is zero. A sample decimal is its text.
use webull.Common.{length, ℕ, List, codes, ◌≡◌, refl, ◌↔◌, true, false, some, All}
use webull.Errors.{ok}
use webull.Json.{
  is_blank, decimal_json, text_json, list_json, null_decimal_json, read_field, Fields, end, field,
  number, string, Reader,
}
use webull.Json.Lookup.{find_field}
use webull.Json.Blank.{is_left_out}
use webull.Transport.Http.{same_key, same_folded}
use webull.Trade.Accounts.{Balance}
use webull.Trade.Accounts.Zero.{zero_balance}
use webull.Trade.Accounts.Decoding.{decode_balance}
use webull.Trade.Accounts.Margins.{margins, decode_balance-absent_iff}
use webull.Trade.Samples.{sample_ops}

abbrev pub reader : Reader (List ℕ) ℕ
reader = record {
  ops = sample_ops;
  decimal_of = λ s. some (codes s);
  zero_time = 0;
  parse_time = λ l cs. some (length cs);
  utc = λ t. t;
  std_time = λ t v. ok t;
}

abbrev response : Fields
response = field "used_margin" (string "") (field "init_margin" (number "0") end)

abbrev decoded : Balance (List ℕ)
decoded = record (zero_balance reader) {
  init_margin = record { decimal = codes "0"; valid = true };
}

decode_balance-absent_iff_example :
    All
      (λ p. (p.1.valid ≡ false) ↔ (is_left_out (find_field p.0 response) ≡ true))
      (margins decoded)
unfolding decode_balance read_field null_decimal_json same_key same_folded is_blank decimal_json
    text_json list_json
decode_balance-absent_iff_example =
    decode_balance-absent_iff reader response decoded refl
      (refl, (refl, (refl, (refl, (refl, (refl, (refl, tt)))))))
