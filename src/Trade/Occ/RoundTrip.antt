-- ===== src/Trade/Occ/RoundTrip.antt =====
-- Which texts LegFromSymbol takes, and the leg that it makes of them (trade/orders.go).
use Prim.Native.Char.{Char}
use webull.Common.{
  ◌-◌, String, ◌≡◌, refl, sym, ap, ◌∙◌, ◌↔◌, inl, inr, Bool, true, false, ◌&&◌, Option, none, some,
  List, [], ◌∷◌, ◌++◌, arith, if◌then◌else◌, Bool-cases, length, take, length-append, drop,
  take-append, drop-append, append-take-drop,
}
use webull.Errors.{Error, ok, err}
use webull.Trade.Order.{OrderLeg}
use webull.Trade.Occ.{
  chars, text_of, OccTail, tail_of, read_tail, is_root, is_tail, checked, find_submatch, is_date,
  StrikeReader, leg_of, with_expiry, leg_from_symbol,
}

chars-text_of : (cs : List Char) → chars (text_of cs) ≡ cs
chars-text_of [] = refl
chars-text_of (c ∷ cs) = ap (λ xs. c ∷ xs) (chars-text_of cs)

text_of-chars : (s : String) → text_of (chars s) ≡ s
text_of-chars String.[] = refl
text_of-chars (String.◌∷◌ c s) = ap (λ t. String.◌∷◌ c t) (text_of-chars s)

read_tail-tail_of : (o : OccTail) → read_tail (tail_of o) ≡ some o
unfolding read_tail
read_tail-tail_of o = refl

read_tail_lem : (cs : List Char) (o : OccTail) → read_tail cs ≡ some o → cs ≡ tail_of o
unfolding read_tail
read_tail_lem [] o h = absurd (cc)
read_tail_lem (c0 ∷ []) o h = absurd (cc)
read_tail_lem (c0 ∷ c1 ∷ []) o h = absurd (cc)
read_tail_lem (c0 ∷ c1 ∷ c2 ∷ []) o h = absurd (cc)
read_tail_lem (c0 ∷ c1 ∷ c2 ∷ c3 ∷ []) o h = absurd (cc)
read_tail_lem (c0 ∷ c1 ∷ c2 ∷ c3 ∷ c4 ∷ []) o h = absurd (cc)
read_tail_lem (c0 ∷ c1 ∷ c2 ∷ c3 ∷ c4 ∷ c5 ∷ []) o h = absurd (cc)
read_tail_lem (c0 ∷ c1 ∷ c2 ∷ c3 ∷ c4 ∷ c5 ∷ c6 ∷ []) o h = absurd (cc)
read_tail_lem (c0 ∷ c1 ∷ c2 ∷ c3 ∷ c4 ∷ c5 ∷ c6 ∷ c7 ∷ []) o h = absurd (cc)
read_tail_lem (c0 ∷ c1 ∷ c2 ∷ c3 ∷ c4 ∷ c5 ∷ c6 ∷ c7 ∷ c8 ∷ []) o h = absurd (cc)
read_tail_lem (c0 ∷ c1 ∷ c2 ∷ c3 ∷ c4 ∷ c5 ∷ c6 ∷ c7 ∷ c8 ∷ c9 ∷ []) o h = absurd (cc)
read_tail_lem (c0 ∷ c1 ∷ c2 ∷ c3 ∷ c4 ∷ c5 ∷ c6 ∷ c7 ∷ c8 ∷ c9 ∷ c10 ∷ []) o h = absurd (cc)
read_tail_lem (c0 ∷ c1 ∷ c2 ∷ c3 ∷ c4 ∷ c5 ∷ c6 ∷ c7 ∷ c8 ∷ c9 ∷ c10 ∷ c11 ∷ []) o h = absurd (cc)
read_tail_lem (c0 ∷ c1 ∷ c2 ∷ c3 ∷ c4 ∷ c5 ∷ c6 ∷ c7 ∷ c8 ∷ c9 ∷ c10 ∷ c11 ∷ c12 ∷ []) o h =
    absurd (cc)
read_tail_lem (c0 ∷ c1 ∷ c2 ∷ c3 ∷ c4 ∷ c5 ∷ c6 ∷ c7 ∷ c8 ∷ c9 ∷ c10 ∷ c11 ∷ c12 ∷ c13 ∷ []) o h =
    absurd (cc)
read_tail_lem (c0 ∷ c1 ∷ c2 ∷ c3 ∷ c4 ∷ c5 ∷ c6 ∷ c7 ∷ c8 ∷ c9 ∷ c10 ∷ c11 ∷ c12 ∷ c13 ∷ c14 ∷ []) o
      h =
    cc
read_tail_lem
      (c0 ∷ c1 ∷ c2 ∷ c3 ∷ c4 ∷ c5 ∷ c6 ∷ c7 ∷ c8 ∷ c9 ∷ c10 ∷ c11 ∷ c12 ∷ c13 ∷ c14 ∷ c15 ∷ cs) o
      h =
    absurd (cc)

guarded {ℓ} :
    {A : Type ℓ} (b c : Bool) (x y : A)
    → (if b && c then some x else none) ≡ some y
    → (b ≡ true) × (c ≡ true) × (y ≡ x)
guarded true true x y h = (refl, refl, cc)
guarded true false x y h = absurd (cc)
guarded false c x y h = absurd (cc)

checked_lem :
    (root r : List Char) (t : Option OccTail) (o : OccTail)
    → checked root t ≡ some (r, o)
    → (t ≡ some o) × (r ≡ root) × (is_root root ≡ true) × (is_tail o ≡ true)
checked_lem root r none o h = absurd (cc)
checked_lem root r (some p) o h =
    let (a, b, e) = guarded (is_root root) (is_tail p) (root, p) (r, o) h in
    let same : o ≡ p = ap (λ q. q.1) e in
    (ap some (sym same), ap (λ q. q.0) e, a, ap is_tail same ∙ b)

-- The shape of an option symbol, with a root, a date that there is and a strike.
abbrev pub IsOcc : String → List Char → OccTail → Type 0
IsOcc s root o =
    (s ≡ text_of (root ++ tail_of o))
    × (is_root root ≡ true)
    × (is_tail o ≡ true)
    × (is_date o ≡ true)

find_submatch-append :
    (root : List Char) (o : OccTail)
    → is_root root ≡ true
    → is_tail o ≡ true
    → find_submatch (root ++ tail_of o) ≡ some (root, o)
unfolding find_submatch
find_submatch-append root o r t =
    let n : length (root ++ tail_of o) - 15 ≡ length root =
      omega (arith, length-append root (tail_of o)) in
    rw (n, take-append root (tail_of o), drop-append root (tail_of o), read_tail-tail_of o, r, t)
      refl

find_submatch_lem :
    (cs root : List Char) (o : OccTail)
    → find_submatch cs ≡ some (root, o)
    → (cs ≡ root ++ tail_of o) × (is_root root ≡ true) × (is_tail o ≡ true)
unfolding find_submatch
find_submatch_lem cs root o h =
    let n = length cs - 15 in
    let (t, r, a, b) = checked_lem (take n cs) root (read_tail (drop n cs)) o h in
    let e : drop n cs ≡ tail_of o = read_tail_lem (drop n cs) o t in
    (
      sym (append-take-drop n cs)
          ∙ ap (λ xs. take n cs ++ xs) e
          ∙ ap (λ xs. xs ++ tail_of o) (sym r),
      ap is_root r ∙ a,
      b,
    )

module _ {D : Type 0} (reader : StrikeReader D) where
  with_expiry_lem :
      (m : Option (List Char × OccTail)) (l : OrderLeg D)
      → with_expiry reader m ≡ ok l
      → (root : List Char) × (o : OccTail) × (m ≡ some (root, o))
        × (is_date o ≡ true)
        × (l ≡ leg_of reader root o)
  with_expiry_lem none l h = absurd (cc)
  with_expiry_lem (some (root, o)) l h = elim (Bool-cases (is_date o)) [
    | inl e ↦ (root, o, refl, e, leg_lem (rw e at h))
    | inr e ↦ absurd (refused (rw e at h))
  ]
    where
      leg_lem : ok (leg_of reader root o) ≡ ok l → l ≡ leg_of reader root o
      leg_lem q = cc

      refused : {x : Error} → err x ≡ ok l → ⊥
      refused q = cc

  -- LegFromSymbol takes exactly the texts of a root, a date that there is in the years 1969 to 2068, C or
  -- P, and a strike of eight digits, and makes a leg of exactly these parts.
  pub leg_from_symbol_iff :
      (s : String) (l : OrderLeg D)
      → (leg_from_symbol reader s ≡ ok l)
        ↔ ((root : List Char) × (o : OccTail) × IsOcc s root o × (l ≡ leg_of reader root o))
  unfolding leg_from_symbol
  leg_from_symbol_iff s l = (
    (λ h.
        let (root, o, m, d, e) = with_expiry_lem (find_submatch (chars s)) l h in
        let (c, r, t) = find_submatch_lem (chars s) root o m in
        (root, o, (sym (text_of-chars s) ∙ ap text_of c, r, t, d), e)),
    (λ (root, o, (e, r, t, d), f).
        rw (e, chars-text_of (root ++ tail_of o), find_submatch-append root o r t, d, f) refl),
  )
