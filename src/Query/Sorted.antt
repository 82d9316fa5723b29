-- ===== src/Query/Sorted.antt =====
-- The parameters sorted by key are the same map (internal/query/query.go, url.Values.Encode).
use webull.Common.{
  String, ◌≡◌, refl, ap, ◌∙◌, ◌≢◌, inl, inr, List, [], ◌∷◌, arith, ◌==◌, eq_iff, if◌then◌else◌,
  Bool-cases, All, sym, some,
}
use webull.Common.TextOrder.{le_text}
use webull.Transport.Url.{Values, insert_key, sort_keys}
use webull.Query.{find_values, IsQuery}

All-insert_key {ℓ} :
    (P : String × List String → Type ℓ) (p : String × List String) (q : Values)
    → P p
    → All P q
    → All P (insert_key p q)
unfolding insert_key
All-insert_key P p [] h a = (h, tt)
All-insert_key P p (r ∷ q) h a = elim (Bool-cases (le_text p.0 r.0)) [
  | inl e ↦ rw e (h, a)
  | inr e ↦ rw e (a.0, All-insert_key P p q h a.1)
]

All-sort_keys {ℓ} : (P : String × List String → Type ℓ) (q : Values) → All P q → All P (sort_keys q)
unfolding sort_keys
All-sort_keys P [] a = tt
All-sort_keys P (p ∷ q) a = All-insert_key P p (sort_keys q) a.0 (All-sort_keys P q a.1)

insert_key-IsQuery :
    (p : String × List String) (q : Values)
    → All (λ r. p.0 ≢ r.0) q
    → IsQuery q
    → IsQuery (insert_key p q)
unfolding insert_key
insert_key-IsQuery p [] a h = (tt, tt)
insert_key-IsQuery p (r ∷ q) a h = elim (Bool-cases (le_text p.0 r.0)) [
  | inl e ↦ rw e (a, h)
  | inr e ↦
      rw e
        (All-insert_key (λ s. r.0 ≢ s.0) p q (λ x. a.0 (sym x)) h.0, insert_key-IsQuery p q a.1 h.1)
]

find_values-insert_key :
    (k : String) (p : String × List String) (q : Values)
    → All (λ r. p.0 ≢ r.0) q
    → find_values k (insert_key p q) ≡ (if p.0 == k then some p.1 else find_values k q)
unfolding insert_key
find_values-insert_key k p [] a = refl
find_values-insert_key k p (r ∷ q) (n, a) = elim (Bool-cases (le_text p.0 r.0)) [
  | inl e ↦ rw e refl
  | inr e ↦ rw e (ground (arith, n, find_values-insert_key k p q a, eq_iff p.0 k, eq_iff r.0 k))
]

pub sort_keys-IsQuery : (q : Values) → IsQuery q → IsQuery (sort_keys q)
unfolding sort_keys
sort_keys-IsQuery [] h = tt
sort_keys-IsQuery (p ∷ q) (a, h) =
    insert_key-IsQuery p (sort_keys q) (All-sort_keys (λ r. p.0 ≢ r.0) q a) (sort_keys-IsQuery q h)

pub find_values-sort_keys :
    (k : String) (q : Values) → IsQuery q → find_values k (sort_keys q) ≡ find_values k q
unfolding sort_keys
find_values-sort_keys k [] h = refl
find_values-sort_keys k (p ∷ q) (a, h) =
    find_values-insert_key k p (sort_keys q) (All-sort_keys (λ r. p.0 ≢ r.0) q a)
    ∙ ap (λ o. if p.0 == k then some p.1 else o) (find_values-sort_keys k q h)
