-- ===== src/Streaming/Messages/Times.antt =====
-- millis of streaming/messages.go.
use webull.Common.{
  zero, suc, String, ◌≡◌, refl, ◌∙◌, ◌≢◌, inl, inr, none, some, arith, ◌==◌, eq_iff, Bool-cases,
}
use webull.Common.Int.{ℤ, pos, negsuc}
use webull.Common.Numerals.{itoa}
use webull.Common.Numerals.Reading.{parse_int, IsInt64, parse_int-itoa}
use webull.Streaming.Messages.Fields.{time_of_millis, millis}

of_nonzero : (z : ℤ) → z ≢ pos 0 → time_of_millis (some z) ≡ some z
of_nonzero (pos zero) n = absurd (n refl)
of_nonzero (pos (suc k)) n = refl
of_nonzero (negsuc k) n = refl

-- Where ParseInt reads something, the text is not empty.
millis-parse_int : (s : String) (z : ℤ) → parse_int s ≡ some z → millis s ≡ time_of_millis (some z)
unfolding millis parse_int
millis-parse_int s z e = elim (Bool-cases (s == "")) [
  | inl h ↦
      let empty : s ≡ "" = ground (arith, h, eq_iff s "") in
      let read : parse_int "" ≡ some z = rw empty at e in absurd (none_some read)
  | inr h ↦ rw (h, e) refl
]
  where
    none_some : none ≡ some z → ⊥
    none_some q = cc

-- A time that is written as epoch milliseconds in decimal is read back, for any number of 64 bits but
-- 0, which stands for no time.
millis-itoa : (z : ℤ) → IsInt64 z → z ≢ pos 0 → millis (itoa z) ≡ some z
millis-itoa z h n = millis-parse_int (itoa z) z (parse_int-itoa z h) ∙ of_nonzero z n
