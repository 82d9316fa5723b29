-- ===== src/Common/TextOrder.antt =====
-- The order of texts, by their code points: what sort.Strings compares by.

use Prim.Native.String.{compare as compare_texts}
use Prim.Native.String.compare
use text.Mathlib.Text.{is_le}
use Prim.Native.String.{then as followed_by}
use Prim.Native.Char.{code}
use Prim.Native.Nat.{Ordering}
use text.Mathlib.Text.{is_lt, is_eq}
use text.Mathlib.TextEquality.{codes_equal}
use text.Mathlib.TextPositions.{compare_self}
use Prim.Native.Nat.{compare as compare_ℕ}
use webull.Common.{
  ℕ, String, ◌≡◌, refl, sym, ◌∙◌, Bool, true, false, ◌||◌, List, [], ◌∷◌, arith, ltb, beq,
  if◌then◌else◌, codes,
}

abbrev pub le_text : String → String → Bool
le_text s t = is_le (compare_texts s t)

abbrev le_codes : List ℕ → List ℕ → Bool
le_codes [] ys = true
le_codes (x ∷ xs) [] = false
le_codes (x ∷ xs) (y ∷ ys) =
    let rest = le_codes xs ys in if ltb x y then true else if beq x y then rest else false

glue :
    (o r : Ordering) (b : Bool)
    → is_le r ≡ b
    → is_le (followed_by o r) ≡ (if is_lt o then true else if is_eq o then b else false)
glue Ordering.lt r b e = refl
glue Ordering.eq r b e = e
glue Ordering.gt r b e = refl

le_text-codes : (s t : String) → le_text s t ≡ le_codes (codes s) (codes t)
le_text-codes String.[] String.[] = refl
le_text-codes String.[] (String.◌∷◌ d t) = λ i. is_le (compare.nil-cons d t i)
le_text-codes (String.◌∷◌ c s) String.[] = λ i. is_le (compare.cons-nil c s i)
le_text-codes (String.◌∷◌ c s) (String.◌∷◌ d t) =
    (λ i. is_le (compare.cons-cons c d s t i))
    ∙ glue (compare_ℕ (code c) (code d)) (compare_texts s t) _ (le_text-codes s t)

le_codes_total : (xs ys : List ℕ) → (le_codes xs ys || le_codes ys xs) ≡ true
le_codes_total [] ys = refl
le_codes_total (x ∷ xs) [] = refl
le_codes_total (x ∷ xs) (y ∷ ys) = ground (arith, le_codes_total xs ys)

le_codes_trans :
    (xs ys zs : List ℕ) → le_codes xs ys ≡ true → le_codes ys zs ≡ true → le_codes xs zs ≡ true
le_codes_trans [] ys zs h k = refl
le_codes_trans (x ∷ xs) [] zs h k = absurd (cc)
le_codes_trans (x ∷ xs) (y ∷ ys) [] h k = absurd (cc)
le_codes_trans (x ∷ xs) (y ∷ ys) (z ∷ zs) h k = ground (arith, h, k, le_codes_trans xs ys zs)

codes_injective : (s t : String) → codes s ≡ codes t → s ≡ t
codes_injective String.[] String.[] h = refl
codes_injective String.[] (String.◌∷◌ d t) h = absurd (cc)
codes_injective (String.◌∷◌ c s) String.[] h = absurd (cc)
codes_injective (String.◌∷◌ c s) (String.◌∷◌ d t) h =
    let first : code c ≡ code d = cc in
    let rest : codes s ≡ codes t = cc in
    λ i.
      String.◌∷◌ (codes_equal c d (rw first (compare_self (code d))) i) (codes_injective s t rest i)

le_codes_antisym : (xs ys : List ℕ) → le_codes xs ys ≡ true → le_codes ys xs ≡ true → xs ≡ ys
le_codes_antisym [] [] h k = refl
le_codes_antisym [] (y ∷ ys) h k = absurd (cc)
le_codes_antisym (x ∷ xs) [] h k = absurd (cc)
le_codes_antisym (x ∷ xs) (y ∷ ys) h k = ground (arith, h, k, le_codes_antisym xs ys)

pub le_text_total : (s t : String) → (le_text s t || le_text t s) ≡ true
le_text_total s t = rw (le_text-codes s t, le_text-codes t s) (le_codes_total (codes s) (codes t))

pub le_text_trans : (s t u : String) → le_text s t ≡ true → le_text t u ≡ true → le_text s u ≡ true
le_text_trans s t u h k =
    le_text-codes s u
    ∙ le_codes_trans (codes s) (codes t) (codes u) (sym (le_text-codes s t) ∙ h)
        (sym (le_text-codes t u) ∙ k)

pub le_text_antisym : (s t : String) → le_text s t ≡ true → le_text t s ≡ true → s ≡ t
le_text_antisym s t h k = codes_injective s t (
    le_codes_antisym (codes s) (codes t) (sym (le_text-codes s t) ∙ h)
      (sym (le_text-codes t s) ∙ k))
