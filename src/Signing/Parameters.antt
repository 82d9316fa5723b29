-- ===== src/Signing/Parameters.antt =====
-- The parameters of a canonical text as a map, and their sorted list as a view of it
-- (internal/signing/signing.go).
use mathlib.Core.Path.{subst}
use webull.Common.{
  String, ◌≡◌, refl, sym, ap, ◌∙◌, ◌≢◌, inl, inr, true, false, Option, none, some, [], ◌∷◌, arith,
  ◌==◌, eq_iff, if◌then◌else◌, Bool-cases, All,
}
use webull.Common.TextOrder.{le_text, le_text_total, le_text_trans, le_text_antisym}
use webull.Transport.Url.{Bytes}
use webull.Signing.{Params, insert_param, sort_params}

-- params[k]
abbrev pub find_param : String → Params → Option Bytes
find_param k [] = none
find_param k ((j, v) ∷ ps) = if j == k then some v else find_param k ps

-- The key comes before those of the list, or differs from them.
abbrev Below : String → String → Type 0
Below s t = (le_text s t ≡ true) × (s ≢ t)

abbrev pub IsAway : String → Params → Type 0
IsAway k ps = All (λ q. k ≢ q.0) ps

abbrev pub IsMap : Params → Type 0
IsMap [] = Unit
IsMap (p ∷ ps) = IsAway p.0 ps × IsMap ps

abbrev IsSorted : Params → Type 0
IsSorted [] = Unit
IsSorted (p ∷ ps) = All (λ q. Below p.0 q.0) ps × IsSorted ps

equal_texts : (s t : String) → (s == t) ≡ true → s ≡ t
equal_texts s t h = ground (arith, h, eq_iff s t)

unequal_texts : (s t : String) → s ≢ t → (s == t) ≡ false
unequal_texts s t n = ground (arith, n, eq_iff s t)

All-insert_param {ℓ} :
    (P : String × Bytes → Type ℓ) (p : String × Bytes) (l : Params)
    → P p
    → All P l
    → All P (insert_param p l)
unfolding insert_param
All-insert_param P p [] h a = (h, tt)
All-insert_param P p (q ∷ qs) h a = elim (Bool-cases (le_text p.0 q.0)) [
  | inl e ↦ rw e (h, a)
  | inr e ↦ rw e (a.0, All-insert_param P p qs h a.1)
]

find-insert_param :
    (k : String) (p : String × Bytes) (l : Params)
    → IsAway p.0 l
    → find_param k (insert_param p l) ≡ (if p.0 == k then some p.1 else find_param k l)
unfolding insert_param
find-insert_param k p [] a = refl
find-insert_param k p (q ∷ qs) (n, a) = elim (Bool-cases (le_text p.0 q.0)) [
  | inl e ↦ rw e refl
  | inr e ↦ rw e (ground (arith, n, find-insert_param k p qs a, eq_iff p.0 k, eq_iff q.0 k))
]

above :
    (s t : String) (qs : Params)
    → le_text s t ≡ true
    → IsAway s qs
    → All (λ q. Below t q.0) qs
    → All (λ q. Below s q.0) qs
above s t [] e a b = tt
above s t (q ∷ qs) e (n, a) ((l, m), b) = ((le_text_trans s t q.0 e l, n), above s t qs e a b)

insert_param-IsSorted :
    (p : String × Bytes) (l : Params) → IsAway p.0 l → IsSorted l → IsSorted (insert_param p l)
unfolding insert_param
insert_param-IsSorted p [] a s = (tt, tt)
insert_param-IsSorted p (q ∷ qs) (n, a) (b, s) = elim (Bool-cases (le_text p.0 q.0)) [
  | inl e ↦ rw e (((e, n), above p.0 q.0 qs e a b), (b, s))
  | inr e ↦
      let back : le_text q.0 p.0 ≡ true = ground (arith, e, le_text_total p.0 q.0) in
      rw e (
        All-insert_param (λ r. Below q.0 r.0) p qs (back, (λ x. n (sym x))) b,
        insert_param-IsSorted p qs a s,
      )
]

All-sort_params {ℓ} :
    (P : String × Bytes → Type ℓ) (ps : Params) → All P ps → All P (sort_params ps)
unfolding sort_params
All-sort_params P [] a = tt
All-sort_params P (p ∷ ps) a = All-insert_param P p (sort_params ps) a.0 (All-sort_params P ps a.1)

sort_params-IsSorted : (ps : Params) → IsMap ps → IsSorted (sort_params ps)
unfolding sort_params
sort_params-IsSorted [] m = tt
sort_params-IsSorted (p ∷ ps) (a, m) =
    insert_param-IsSorted p (sort_params ps) (All-sort_params (λ q. p.0 ≢ q.0) ps a)
      (sort_params-IsSorted ps m)

find-sort_params :
    (k : String) (ps : Params) → IsMap ps → find_param k (sort_params ps) ≡ find_param k ps
unfolding sort_params
find-sort_params k [] m = refl
find-sort_params k (p ∷ ps) (a, m) =
    find-insert_param k p (sort_params ps) (All-sort_params (λ q. p.0 ≢ q.0) ps a)
    ∙ ap (λ o. if p.0 == k then some p.1 else o) (find-sort_params k ps m)

find-away : (k : String) (ps : Params) → IsAway k ps → find_param k ps ≡ none
find-away k [] a = refl
find-away k (p ∷ ps) (n, a) = ground (arith, n, eq_iff p.0 k, find-away k ps a)

find-All {ℓ} :
    (P : String → Type ℓ) (k : String) (v : Bytes) (ps : Params)
    → All (λ q. P q.0) ps
    → find_param k ps ≡ some v
    → P k
find-All P k v [] a h = absurd (cc)
find-All P k v ((j, w) ∷ ps) (p, a) h = elim (Bool-cases (j == k)) [
  | inl e ↦ subst P (equal_texts j k e) p
  | inr e ↦ find-All P k v ps a (rw e at h)
]

find-head : (k : String) (v : Bytes) (ps : Params) → find_param k ((k, v) ∷ ps) ≡ some v
find-head k v ps = ground (arith, eq_iff k k)

-- The first keys of two sorted lists with the same entries are the same.
same_head :
    (j k : String) (v w : Bytes) (ps qs : Params)
    → IsSorted ((j, v) ∷ ps)
    → IsSorted ((k, w) ∷ qs)
    → ((i : String) → find_param i ((j, v) ∷ ps) ≡ find_param i ((k, w) ∷ qs))
    → j ≡ k
same_head j k v w ps qs s t h = elim (Bool-cases (k == j)) [
  | inl e ↦ sym (equal_texts k j e)
  | inr e ↦
      let n : (j == k) ≡ false = ground (arith, e, eq_iff j k, eq_iff k j) in
      let there : find_param j qs ≡ some v = rw e at (sym (h j) ∙ find-head j v ps) in
      let here : find_param k ps ≡ some w = rw n at (h k ∙ find-head k w qs) in
      le_text_antisym j k (find-All (λ i. Below j i) k w ps s.0 here).0
        (find-All (λ i. Below k i) j v qs t.0 there).0
]

smaller_key-IsAway : (k : String) (ps : Params) → All (λ q. Below k q.0) ps → IsAway k ps
smaller_key-IsAway k [] a = tt
smaller_key-IsAway k (p ∷ ps) (b, a) = (b.1, smaller_key-IsAway k ps a)

same_tails :
    (j : String) (v w : Bytes) (ps qs : Params)
    → IsAway j ps
    → IsAway j qs
    → ((i : String) → find_param i ((j, v) ∷ ps) ≡ find_param i ((j, w) ∷ qs))
    → (v ≡ w) × ((i : String) → find_param i ps ≡ find_param i qs)
same_tails j v w ps qs a b h = (
  (let e : some v ≡ some w = sym (find-head j v ps) ∙ h j ∙ find-head j w qs in cc),
  (λ i. elim (Bool-cases (j == i)) [
    | inl e ↦
        let same = equal_texts j i e in
        find-away i ps (subst (λ x. IsAway x ps) same a)
        ∙ sym (find-away i qs (subst (λ x. IsAway x qs) same b))
    | inr e ↦ rw e at (h i)
  ]),
)

-- A sorted list is determined by what it gives for each key.
sorted_unique :
    (ps qs : Params)
    → IsSorted ps
    → IsSorted qs
    → ((i : String) → find_param i ps ≡ find_param i qs)
    → ps ≡ qs
sorted_unique [] [] s t h = refl
sorted_unique [] ((k, w) ∷ qs) s t h = let e : none ≡ some w = h k ∙ find-head k w qs in absurd (cc)
sorted_unique ((j, v) ∷ ps) [] s t h =
    let e : none ≡ some v = sym (h j) ∙ find-head j v ps in absurd (cc)
sorted_unique ((j, v) ∷ ps) ((k, w) ∷ qs) s t h =
    let e = same_head j k v w ps qs s t h in
    let away : IsAway j qs = subst (λ x. IsAway x qs) (sym e) (smaller_key-IsAway k qs t.0) in
    let (x, y) =
      same_tails j v w ps qs (smaller_key-IsAway j ps s.0) away
        (λ i. subst (λ z. find_param i ((j, v) ∷ ps) ≡ find_param i ((z, w) ∷ qs)) (sym e) (h i)) in
    rw (e, x, sorted_unique ps qs s.1 t.1 y) refl

-- Two lists of parameters that are the same map are sorted into the same list.
pub sort_params_unique :
    (ps qs : Params)
    → IsMap ps
    → IsMap qs
    → ((k : String) → find_param k ps ≡ find_param k qs)
    → sort_params ps ≡ sort_params qs
sort_params_unique ps qs m n h =
    sorted_unique (sort_params ps) (sort_params qs) (sort_params-IsSorted ps m)
      (sort_params-IsSorted qs n)
      (λ k. find-sort_params k ps m ∙ h k ∙ sym (find-sort_params k qs n))
