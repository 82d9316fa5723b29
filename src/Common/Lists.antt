-- ===== src/Common/Lists.antt =====
-- Lists over the native numbers, under the library's names, and what Go's `slices` and maps do.
use Prim.Native.Nat.{ℕ, zero, suc, ◌+◌, min}
use Prim.Native.String.{String}
use Prim.Native.Char.{code}
use mathlib.Core.Path.{ap, sym, subst, ◌≡◌, refl, ◌∙◌}
use mathlib.Core.Bool.{◌&&◌, Bool, true, false, ◌||◌}
use mathlib.Core.List.{Permᴰ, List, [], ◌∷◌, ◌++◌}
use native.Mathlib.Omega.{arith}
use text.Mathlib.Text.{◌==◌}

-- The code points of a text: its bytes, if it is ASCII.
abbrev pub codes : String → List ℕ
codes String.[] = []
codes (String.◌∷◌ c s) = code c ∷ codes s

module _ {ℓ} {A : Type ℓ} where
  abbrev pub length : List A → ℕ
  length [] = 0
  length (x ∷ xs) = suc (length xs)

  abbrev pub take : ℕ → List A → List A
  take zero xs = []
  take (suc n) [] = []
  take (suc n) (x ∷ xs) = x ∷ take n xs

  abbrev pub is_empty : List A → Bool
  is_empty [] = true
  is_empty (x ∷ xs) = false

  pub length-append : (xs ys : List A) → length (xs ++ ys) ≡ length xs + length ys
  length-append [] ys = omega arith
  length-append (x ∷ xs) ys = omega (arith, length-append xs ys)

  pub length-take : (n : ℕ) (xs : List A) → length (take n xs) ≡ min n (length xs)
  length-take zero xs = omega arith
  length-take (suc n) [] = omega arith
  length-take (suc n) (x ∷ xs) = omega (arith, length-take n xs)

-- A predicate on every element, by recursion.
abbrev pub All {ℓ κ} : {A : Type ℓ} → (A → Type κ) → List A → Type κ
All P [] = Unit
All P (x ∷ xs) = P x × All P xs

pub All-append {ℓ κ} :
    {A : Type ℓ} (P : A → Type κ) (xs ys : List A) → All P xs → All P ys → All P (xs ++ ys)
All-append P [] ys hx hy = hy
All-append P (x ∷ xs) ys hx hy = (hx.0, All-append P xs ys hx.1 hy)

-- slices.Contains on a list of texts.
abbrev pub contains : List String → String → Bool
contains [] a = false
contains (x ∷ xs) a = x == a || contains xs a

pub All-map {ℓ κ μ} :
    {A : Type ℓ} {P : A → Type κ} {Q : A → Type μ} (f : (a : A) → P a → Q a) (xs : List A)
    → All P xs
    → All Q xs
All-map f [] h = tt
All-map f (x ∷ xs) h = (f x h.0, All-map f xs h.1)

pub All-split {ℓ κ} :
    {A : Type ℓ} (P : A → Type κ) (xs ys : List A) → All P (xs ++ ys) → All P xs × All P ys
All-split P [] ys h = (tt, h)
All-split P (x ∷ xs) ys h = let (l, r) = All-split P xs ys h.1 in ((h.0, l), r)

or_swap : (a b c : Bool) → (a || (b || c)) ≡ (b || (a || c))
or_swap a b c = ground arith

abbrev pub any {ℓ} : {A : Type ℓ} → (A → Bool) → List A → Bool
any p [] = false
any p (x ∷ xs) = p x || any p xs

-- Whether some element passes a test does not depend on their order.
pub any-perm {ℓ} : {A : Type ℓ} (p : A → Bool) (xs ys : List A) → Permᴰ xs ys → any p xs ≡ any p ys
any-perm p [] [] Permᴰ.nil = refl
any-perm p (x ∷ xs) (y ∷ ys) (Permᴰ.cons e h) = rw (e, any-perm p xs ys h) refl
any-perm p (a ∷ b ∷ l) (c ∷ d ∷ m) (Permᴰ.swap e f) = rw (e, f) (or_swap (p d) (p c) (any p l))
any-perm p xs zs (Permᴰ.trans {l₂ = ys} h k) = any-perm p xs ys h ∙ any-perm p ys zs k

pub All-perm {ℓ κ} :
    {A : Type ℓ} (P : A → Type κ) (xs ys : List A) → Permᴰ xs ys → All P xs → All P ys
All-perm P [] [] Permᴰ.nil h = tt
All-perm P (x ∷ xs) (y ∷ ys) (Permᴰ.cons e p) h = (subst P e h.0, All-perm P xs ys p h.1)
All-perm P (a ∷ b ∷ l) (c ∷ d ∷ m) (Permᴰ.swap e f) h = (subst P f h.1.0, (subst P e h.0, h.1.1))
All-perm P xs zs (Permᴰ.trans {l₂ = ys} p q) h = All-perm P ys zs q (All-perm P xs ys p h)

pub length-perm {ℓ} : {A : Type ℓ} (xs ys : List A) → Permᴰ xs ys → length xs ≡ length ys
length-perm [] [] Permᴰ.nil = refl
length-perm (x ∷ xs) (y ∷ ys) (Permᴰ.cons e p) = omega (arith, length-perm xs ys p)
length-perm (a ∷ b ∷ l) (c ∷ d ∷ m) (Permᴰ.swap e f) = refl
length-perm xs zs (Permᴰ.trans {l₂ = ys} p q) = length-perm xs ys p ∙ length-perm ys zs q

pub nothing {ℓ} : {A : Type ℓ} (xs : List A) → length xs ≡ 0 → xs ≡ []
nothing [] h = refl
nothing (x ∷ xs) h = absurd (omega (arith, h))

pub perm_singleton {ℓ} :
    {A : Type ℓ} (x : A) (xs ys : List A) → Permᴰ xs ys → xs ≡ x ∷ [] → ys ≡ x ∷ []
perm_singleton x [] [] Permᴰ.nil h = h
perm_singleton x (a ∷ xs) (b ∷ ys) (Permᴰ.cons e p) h =
    let n : length ys ≡ 0 = omega (arith, ap length h, length-perm xs ys p) in
    let a_x : a ≡ x = cc in rw (nothing ys n, sym e, a_x) refl
perm_singleton x (a ∷ b ∷ l) (c ∷ d ∷ m) (Permᴰ.swap e f) h = absurd (cc)
perm_singleton x xs zs (Permᴰ.trans {l₂ = ys} p q) h =
    perm_singleton x ys zs q (perm_singleton x xs ys p h)

module _ {ℓ} {A : Type ℓ} where
  abbrev pub drop : ℕ → List A → List A
  drop zero xs = xs
  drop (suc n) [] = []
  drop (suc n) (x ∷ xs) = drop n xs

  pub take-append : (xs ys : List A) → take (length xs) (xs ++ ys) ≡ xs
  take-append [] ys = refl
  take-append (x ∷ xs) ys = ap (λ zs. x ∷ zs) (take-append xs ys)

  pub drop-append : (xs ys : List A) → drop (length xs) (xs ++ ys) ≡ ys
  drop-append [] ys = refl
  drop-append (x ∷ xs) ys = drop-append xs ys

  pub append-take-drop : (n : ℕ) (xs : List A) → take n xs ++ drop n xs ≡ xs
  append-take-drop zero xs = refl
  append-take-drop (suc n) [] = refl
  append-take-drop (suc n) (x ∷ xs) = ap (λ zs. x ∷ zs) (append-take-drop n xs)

  abbrev pub all_of : (A → Bool) → List A → Bool
  all_of p [] = true
  all_of p (x ∷ xs) = p x && all_of p xs
