-- ===== src/Query/Laws.antt =====
-- Setting a parameter keeps the parameters a map (internal/query/query.go).
use mathlib.Core.Path.{subst}
use webull.Common.{
  String, ◌≡◌, refl, sym, ◌∙◌, ◌≢◌, inl, inr, Bool, true, false, Option, some, List, [], ◌∷◌, arith,
  ◌==◌, eq_iff, if◌then◌else◌, Bool-cases, is_empty, All,
}
use webull.Common.Int.{ℤ, beq_ℤ, pos}
use webull.Transport.Url.{Values}
use webull.Common.Numerals.{itoa}
use webull.Query.{find_values, IsQuery, put_value, set_value, join_commas, set_list, set_number}

put_value-away :
    (i k : String) (v : String) (q : Values)
    → i ≢ k
    → All (λ p. i ≢ p.0) q
    → All (λ p. i ≢ p.0) (put_value k v q)
unfolding put_value
put_value-away i k v [] n a = (n, tt)
put_value-away i k v ((j, vs) ∷ q) n a = elim (Bool-cases (j == k)) [
  | inl e ↦ rw e (n, a.1)
  | inr e ↦ rw e (a.0, put_value-away i k v q n a.1)
]

pub put_value-IsQuery : (k v : String) (q : Values) → IsQuery q → IsQuery (put_value k v q)
unfolding put_value
put_value-IsQuery k v [] h = (tt, tt)
put_value-IsQuery k v ((j, vs) ∷ q) (a, h) = elim (Bool-cases (j == k)) [
  | inl e ↦
      let same : j ≡ k = ground (arith, e, eq_iff j k) in
      rw e (subst (λ x. All (λ p. x ≢ p.0) q) same a, h)
  | inr e ↦
      let n : j ≢ k = ground (arith, e, eq_iff j k) in
      rw e (put_value-away j k v q n a, put_value-IsQuery k v q h)
]

unless-IsQuery :
    (b : Bool) (k v : String) (q : Values) → IsQuery q → IsQuery (if b then q else put_value k v q)
unless-IsQuery true k v q h = h
unless-IsQuery false k v q h = put_value-IsQuery k v q h

pub set_value-IsQuery : (k v : String) (q : Values) → IsQuery q → IsQuery (set_value k v q)
unfolding set_value
set_value-IsQuery k v q h = unless-IsQuery (v == "") k v q h

pub set_list-IsQuery :
    (k : String) (vs : List String) (q : Values) → IsQuery q → IsQuery (set_list k vs q)
unfolding set_list
set_list-IsQuery k vs q h = unless-IsQuery (is_empty vs) k (join_commas vs) q h

pub set_number-IsQuery : (k : String) (n : ℤ) (q : Values) → IsQuery q → IsQuery (set_number k n q)
unfolding set_number
set_number-IsQuery k n q h = unless-IsQuery (beq_ℤ n (pos 0)) k (itoa n) q h

-- What a look-up gives behind a Set.
find-put_value :
    (i k v : String) (q : Values)
    → find_values i (put_value k v q) ≡ (if k == i then some (v ∷ []) else find_values i q)
unfolding put_value
find-put_value i k v [] = refl
find-put_value i k v ((j, vs) ∷ q) = elim (Bool-cases (j == k)) [
  | inl e ↦
      let same : j ≡ k = ground (arith, e, eq_iff j k) in
      rw e (
        subst
          (λ x.
            (if k == i then some (v ∷ []) else find_values i q)
            ≡ (if k == i then some (v ∷ []) else (if x == i then some vs else find_values i q)))
          (sym same) (twice (k == i) _ _ _))
  | inr e ↦ rw e (ground (arith, e, find-put_value i k v q, eq_iff j k, eq_iff j i, eq_iff k i))
]
  where
    twice :
        (b : Bool) (x y z : Option (List String))
        → (if b then x else z) ≡ (if b then x else (if b then y else z))
    twice true x y z = refl
    twice false x y z = refl

kept_unless :
    (b : Bool) (i k v : String) (q : Values)
    → (k == i) ≡ false
    → find_values i (if b then q else put_value k v q) ≡ find_values i q
kept_unless true i k v q h = refl
kept_unless false i k v q h = find-put_value i k v q ∙ rw h refl

pub find-set_value_other :
    (i k v : String) (q : Values)
    → (k == i) ≡ false
    → find_values i (set_value k v q) ≡ find_values i q
unfolding set_value
find-set_value_other i k v q h = kept_unless (v == "") i k v q h

pub find-set_list_other :
    (i k : String) (vs : List String) (q : Values)
    → (k == i) ≡ false
    → find_values i (set_list k vs q) ≡ find_values i q
unfolding set_list
find-set_list_other i k vs q h = kept_unless (is_empty vs) i k (join_commas vs) q h

pub find-set_number_other :
    (i k : String) (n : ℤ) (q : Values)
    → (k == i) ≡ false
    → find_values i (set_number k n q) ≡ find_values i q
unfolding set_number
find-set_number_other i k n q h = kept_unless (beq_ℤ n (pos 0)) i k (itoa n) q h

pub find-set_value :
    (k v : String) (q : Values)
    → (v == "") ≡ false
    → find_values k (set_value k v q) ≡ some (v ∷ [])
unfolding set_value
find-set_value k v q h = rw h (find-put_value k k v q ∙ ground (arith, eq_iff k k))
