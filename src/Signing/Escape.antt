-- ===== src/Signing/Escape.antt =====
-- Escaping loses nothing and leaves nothing unsafe (internal/signing/signing.go, escape).
use webull.Common.{
  ℕ, ◌/◌, ◌%◌, ◌<◌, ◌≡◌, refl, ap, ◌∙◌, inl, inr, true, false, [], ◌∷◌, ◌++◌, arith, beq,
  Bool-cases, All,
}
use webull.Transport.Url.{Bytes, is_unreserved, hex_digit, escape_byte, query_escape}
use webull.Transport.Url.Percent.{unescape, hex_digit-value}
use webull.Signing.{replace_plus, escape}

hex_digit-not_plus : (n : ℕ) → n < 16 → beq (hex_digit n) b'+' ≡ false
unfolding hex_digit
hex_digit-not_plus n h = ground arith

unreserved-plain : (c : ℕ) → is_unreserved c ≡ true → (beq c b'+' ≡ false) × (beq c b'%' ≡ false)
unfolding is_unreserved
unreserved-plain c h = ground arith

-- One byte, escaped and with its plus replaced, reads back.
escape_byte-read :
    (c : ℕ) (rest : Bytes)
    → c < 256
    → unescape b'+' (replace_plus (escape_byte c ++ rest)) ≡ c ∷ unescape b'+' (replace_plus rest)
unfolding escape_byte replace_plus
escape_byte-read c rest h = elim (Bool-cases (is_unreserved c)) [
  | inl e ↦ let (p, q) = unreserved-plain c e in rw (e, p, q, p) refl
  | inr e ↦ elim (Bool-cases (beq c b' ')) [
    | inl k ↦ rw (e, k) (ap (λ x. x ∷ unescape b'+' (replace_plus rest)) (ground arith))
    | inr k ↦
        let hi : c / 16 < 16 = omega arith in
        let lo : c % 16 < 16 = omega arith in
        rw
          (
            e,
            k,
            hex_digit-not_plus (c / 16) hi,
            hex_digit-not_plus (c % 16) lo,
            hex_digit-value (c / 16) hi,
            hex_digit-value (c % 16) lo,
          )
          (ap (λ x. x ∷ unescape b'+' (replace_plus rest)) (omega arith))
  ]
]

-- Escaping can be undone: bytes that differ stay different, so two requests share a signed text only if
-- their unescaped texts agree.
pub unescape-escape : (s : Bytes) → All (λ c. c < 256) s → unescape b'+' (escape s) ≡ s
unfolding escape replace_plus query_escape
unescape-escape [] h = refl
unescape-escape (c ∷ cs) h =
    escape_byte-read c (query_escape cs) h.0 ∙ ap (λ t. c ∷ t) (unescape-escape cs h.1)
