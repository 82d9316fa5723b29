-- ===== src/Json/Times/RoundTrip.antt =====
-- Times that are written and read back (internal/wire/millis.go, internal/wire/time.go).
use webull.Common.{
  ℕ, ◌≤◌, ◌≡◌, ◌≢◌, ◌↔◌, ap, refl, String, Bool, true, false, Option, none, some, List, [], ◌∷◌,
  ◌++◌, ◌==◌, ◌||◌, eq_iff, inl, inr, Bool-cases, arith, beq, length, codes,
}
use webull.Common.Int.{ℤ, pos, beq_ℤ, beq_ℤ_iff}
use webull.Common.Numerals.{itoa}
use webull.Common.Numerals.Reading.{parse_int, IsInt64, parse_int-itoa}
use webull.Errors.{ok}
use webull.Transport.Url.{utf8}
use webull.Json.{Reader}
use webull.Json.Times.{
  recognised, colon_after, millis_number, millis_json, millis_marshal, is_offset, normalised,
  parse_text, time_json, time_marshal, rfc_3339, iso_layout,
}

-- A text that holds a number is not one of the blank ones.
not_blank : (s : String) (z : ℤ) → parse_int s ≡ some z → (s == "" || s == "null") ≡ false
unfolding parse_int
not_blank s z e = elim (Bool-cases (s == "")) [
  | inl b ↦ let same : s ≡ "" = ground (arith, b, eq_iff s "") in absurd (cc (rw same at e))
  | inr b ↦ elim (Bool-cases (s == "null")) [
    | inl c ↦
        let same : s ≡ "null" = ground (arith, c, eq_iff s "null") in absurd (cc (rw same at e))
    | inr c ↦ rw (b, c) refl
  ]
]

abbrev Fits : Option ℤ → Type 0
Fits none = Unit
Fits (some z) = IsInt64 z

number_read : (z : ℤ) → (millis_number (some z) ≡ ok (some z)) ↔ (some z ≢ some (pos 0))
number_read z = elim (Bool-cases (beq_ℤ z (pos 0))) [
  | inl e ↦
      let same : z ≡ pos 0 = (beq_ℤ_iff z (pos 0)).0 e in
      rw e ((λ h. absurd (cc)), (λ n. absurd (n (ap some same))))
  | inr e ↦ rw e (
    (λ h q. let same : z ≡ pos 0 = cc in absurd (cc ((beq_ℤ_iff z (pos 0)).1 same))),
    (λ n. refl),
  )
]

-- A time in milliseconds that is written is read back unless it is the epoch, which reads as no time;
-- where none is written, none is read.
pub millis_json-marshal :
    (a t : Option ℤ) → Fits t → (millis_json a (millis_marshal t) ≡ ok t) ↔ (t ≢ some (pos 0))
unfolding millis_json millis_marshal
millis_json-marshal a none h = ((λ e. cc), (λ n. refl))
millis_json-marshal a (some z) h =
    let e = parse_int-itoa z h in rw (not_blank (itoa z) z e, e) (number_read z)

offset_length : (cs : List ℕ) → is_offset cs ≡ true → length cs ≡ 5
offset_length [] h = absurd (cc)
offset_length (a ∷ []) h = absurd (cc)
offset_length (a ∷ b ∷ []) h = absurd (cc)
offset_length (a ∷ b ∷ c ∷ []) h = absurd (cc)
offset_length (a ∷ b ∷ c ∷ d ∷ []) h = absurd (cc)
offset_length (a ∷ b ∷ c ∷ d ∷ e ∷ []) h = refl
offset_length (a ∷ b ∷ c ∷ d ∷ e ∷ f ∷ cs) h = absurd (cc)

length_grows : (stamp zone : List ℕ) → length zone ≤ length (stamp ++ zone)
length_grows [] zone = omega arith
length_grows (c ∷ cs) zone = let h = length_grows cs zone in omega (arith, h)

-- The colon goes into the offset at the end, and nowhere else.
normalised-append :
    (stamp zone : List ℕ)
    → is_offset zone ≡ true
    → normalised (stamp ++ zone) ≡ stamp ++ colon_after zone
unfolding normalised
normalised-append [] [] h = absurd (cc)
normalised-append [] (z ∷ zs) h = rw h refl
normalised-append (c ∷ cs) zone h = elim (Bool-cases (is_offset (c ∷ cs ++ zone))) [
  | inl e ↦
      let five = offset_length zone h in
      let six = offset_length (c ∷ cs ++ zone) e in
      let grows = length_grows cs zone in absurd (omega (arith, five, six, grows))
  | inr e ↦ rw (e, normalised-append cs zone h) refl
]

-- What time.Format writes in Webull's layout and time.Parse reads: a text that ends with an offset without
-- a colon, and that is the same instant with the colon.
pub record IsIso {D T : Type 0} (r : Reader D T) (written : String) (t : T) : Type 0 where
  stamp : List ℕ
  zone : List ℕ
  instant : T
  ends : codes written ≡ stamp ++ zone
  zone-IsOffset : is_offset zone ≡ true
  long : 11 ≤ length (utf8 written)
  parsed : r.parse_time rfc_3339 (stamp ++ colon_after zone) ≡ some instant
  same : r.utc instant ≡ t

differs : (s k : String) → length (utf8 k) ≤ 10 → 11 ≤ length (utf8 s) → (s == k) ≡ false
differs s k short long = elim (Bool-cases (s == k)) [
  | inl e ↦
      let same : s ≡ k = ground (arith, e, eq_iff s k) in
      let size = ap (λ x. length (utf8 x)) same in absurd (omega (arith, size, short, long))
  | inr e ↦ e
]

empty_short : length (utf8 "") ≤ 10
unfolding utf8
empty_short = omega arith

null_short : length (utf8 "null") ≤ 10
unfolding utf8
null_short = omega arith

module _ {D T : Type 0} (r : Reader D T) where
  parse_text-long :
      (s : String)
      → 11 ≤ length (utf8 s)
      → parse_text r s ≡ recognised r r.utc (r.parse_time rfc_3339 (normalised (codes s)))
  unfolding parse_text
  parse_text-long s h =
      let ten : beq (length (utf8 s)) 10 ≡ false = ground (arith, h) in
      let eight : beq (length (utf8 s)) 8 ≡ false = ground (arith, h) in
      rw (differs s "" empty_short h, differs s "null" null_short h, ten, eight) refl

  -- A time that is not the zero time is read back from what is written of it.
  pub time_json-marshal :
      (is_zero : T → Bool) (format : String → T → String) (t₀ t : T)
      → is_zero t ≡ false
      → IsIso r (format iso_layout (r.utc t)) t
      → time_json r t₀ (time_marshal r is_zero format t) ≡ ok t
  unfolding time_json time_marshal
  time_json-marshal is_zero format t₀ t z h =
      let w = format iso_layout (r.utc t) in
      rw
        (
          z,
          parse_text-long w h.long,
          h.ends,
          normalised-append h.stamp h.zone h.zone-IsOffset,
          h.parsed,
          h.same,
        )
        refl
