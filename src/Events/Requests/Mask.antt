-- ===== src/Events/Requests/Mask.antt =====
-- The families that a subscription asks for (SubscribeRequest.mask of events/client.go).
use webull.Common.{
  ℕ, ◌+◌, ◌≡◌, refl, sym, ◌⊎◌, inl, inr, Bool, true, false, ◌||◌, List, [], ◌∷◌, arith, beq,
  if◌then◌else◌, All,
}
use webull.Events.Requests.{
  orders, positions, options, SubscribeRequest, mask_loop, mask_types, mask, contains_code,
}
use Prim.Native.Nat.{bit_or}

abbrev pub IsFamily : ℕ → Type 0
IsFamily t = (t ≡ orders) ⊎ ((t ≡ positions) ⊎ (t ≡ options))

-- What the wire calls the union of three families.
abbrev pub flags : Bool → Bool → Bool → ℕ
flags a b c = (if a then 1 else 0) + (if b then 2 else 0) + (if c then 4 else 0)

abbrev pub asks_for : List ℕ → ℕ → Bool
asks_for [] f = true
asks_for (t ∷ ts) f = contains_code (t ∷ ts) f

table :
    (a b c : Bool)
    → (bit_or (flags a b c) 1 ≡ flags true b c)
      × (bit_or (flags a b c) 2 ≡ flags a true c)
      × (bit_or (flags a b c) 4 ≡ flags a b true)
table true true true = (refl, refl, refl)
table true true false = (refl, refl, refl)
table true false true = (refl, refl, refl)
table true false false = (refl, refl, refl)
table false true true = (refl, refl, refl)
table false true false = (refl, refl, refl)
table false false true = (refl, refl, refl)
table false false false = (refl, refl, refl)

or_true : (b : Bool) → (b || true) ≡ true
or_true b = ground arith

or_false : (b : Bool) → (b || false) ≡ b
or_false b = ground arith

add_family :
    (a b c : Bool) (t : ℕ)
    → IsFamily t
    → bit_or (flags a b c) t ≡ flags (a || beq t orders) (b || beq t positions) (c || beq t options)
add_family a b c t (inl e) = rw (e, or_true a, or_false b, or_false c) ((table a b c).0)
add_family a b c t (inr (inl e)) = rw (e, or_true b, or_false a, or_false c) ((table a b c).1)
add_family a b c t (inr (inr e)) = rw (e, or_true c, or_false a, or_false b) ((table a b c).2)

or_assoc : (a b c : Bool) → ((a || b) || c) ≡ (a || (b || c))
or_assoc a b c = ground arith

mask_loop_lem :
    (a b c : Bool) (ts : List ℕ)
    → All IsFamily ts
    → mask_loop (flags a b c) ts
      ≡ flags
          (a || contains_code ts orders)
          (b || contains_code ts positions)
          (c || contains_code ts options)
mask_loop_lem a b c [] h = rw (or_false a, or_false b, or_false c) refl
mask_loop_lem a b c (t ∷ ts) h =
    rw
      (
        add_family a b c t h.0,
        sym (or_assoc a (beq t orders) (contains_code ts orders)),
        sym (or_assoc b (beq t positions) (contains_code ts positions)),
        sym (or_assoc c (beq t options) (contains_code ts options)),
      )
      (mask_loop_lem (a || beq t orders) (b || beq t positions) (c || beq t options) ts h.1)

-- The mask that a subscription sends has the bit of a family just where the request names the family
-- or names none, and no other bit, however often a family is named.
mask-families :
    (r : SubscribeRequest)
    → All IsFamily r.types
    → mask r
      ≡ flags (asks_for r.types orders) (asks_for r.types positions) (asks_for r.types options)
unfolding mask
mask-families r h = go r.types h
  where
    go :
        (ts : List ℕ)
        → All IsFamily ts
        → mask_types ts ≡ flags (asks_for ts orders) (asks_for ts positions) (asks_for ts options)
    go [] h = refl
    go (t ∷ ts) h = mask_loop_lem false false false (t ∷ ts) h
