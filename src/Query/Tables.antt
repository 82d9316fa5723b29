-- ===== src/Query/Tables.antt =====
-- A chain of setters as a table: the parameters that are set, in the order of the calls
-- (internal/query/query.go).
use mathlib.Core.List.{append-nil, append_assoc}
use webull.Common.{
  String, ◌≡◌, refl, sym, ap, ◌∙◌, ◌≢◌, not, ◌&&◌, Bool, true, false, Option, none, some, List, [],
  ◌∷◌, ◌++◌, arith, ◌==◌, eq_iff, if◌then◌else◌, All, All-append, is_empty,
}
use webull.Common.Int.{ℤ, beq_ℤ, pos}
use webull.Common.Numerals.{itoa}
use webull.Transport.Url.{Values}
use webull.Query.{
  IsQuery, put_value, set_value, join_commas, set_list, set_number, format_bool, set_flag,
}

-- A parameter is left out where it has no value.
abbrev pub Table : Type 0
Table = List (String × Option String)

abbrev pub text_value : String → Option String
text_value v = if v == "" then none else some v

abbrev pub list_value : List String → Option String
list_value vs = if is_empty vs then none else some (join_commas vs)

abbrev pub number_value : ℤ → Option String
number_value n = if beq_ℤ n (pos 0) then none else some (itoa n)

abbrev pub flag_value : Option Bool → Option String
flag_value none = none
flag_value (some b) = some (format_bool b)

abbrev pub put_option : String → Option String → Values → Values
put_option k none q = q
put_option k (some v) q = put_value k v q

put_unless :
    (b : Bool) (k v : String) (q : Values)
    → (if b then q else put_value k v q) ≡ put_option k (if b then none else some v) q
put_unless true k v q = refl
put_unless false k v q = refl

pub set_value-put : (k v : String) (q : Values) → set_value k v q ≡ put_option k (text_value v) q
unfolding set_value
set_value-put k v q = put_unless (v == "") k v q

pub set_list-put :
    (k : String) (vs : List String) (q : Values) → set_list k vs q ≡ put_option k (list_value vs) q
unfolding set_list
set_list-put k vs q = put_unless (is_empty vs) k (join_commas vs) q

pub set_number-put :
    (k : String) (n : ℤ) (q : Values) → set_number k n q ≡ put_option k (number_value n) q
unfolding set_number
set_number-put k n q = put_unless (beq_ℤ n (pos 0)) k (itoa n) q

pub set_flag-put :
    (k : String) (o : Option Bool) (q : Values) → set_flag k o q ≡ put_option k (flag_value o) q
unfolding set_flag
set_flag-put k none q = refl
set_flag-put k (some b) q = refl

-- The calls in turn.
abbrev pub fill_table : Table → Values → Values
fill_table [] q = q
fill_table ((k, o) ∷ t) q = fill_table t (put_option k o q)

-- What is set.
abbrev pub present_values : Table → Values
present_values [] = []
present_values ((k, none) ∷ t) = present_values t
present_values ((k, some v) ∷ t) = (k, v ∷ []) ∷ present_values t

abbrev IsAway : String → Values → Type 0
IsAway k q = All (λ p. k ≢ p.0) q

-- No key stands twice in a table.
abbrev pub IsTable : Table → Type 0
IsTable [] = Unit
IsTable ((k, o) ∷ t) = All (λ p. k ≢ p.0) t × IsTable t

both : (a b : Bool) → (a && b) ≡ true → (a ≡ true) × (b ≡ true)
both a b h = ground arith

-- The same, as a test.
abbrev is_new : String → Table → Bool
is_new k [] = true
is_new k (p ∷ t) = not (k == p.0) && is_new k t

abbrev pub is_table : Table → Bool
is_table [] = true
is_table (p ∷ t) = is_new p.0 t && is_table t

is_new_sound : (k : String) (t : Table) → is_new k t ≡ true → All (λ p. k ≢ p.0) t
is_new_sound k [] h = tt
is_new_sound k (p ∷ t) h =
    let (n, r) = both (not (k == p.0)) (is_new k t) h in
    ((λ e. unequal k p.0 n e), is_new_sound k t r)
  where
    unequal : (i j : String) → not (i == j) ≡ true → i ≢ j
    unequal i j n = ground (arith, n, eq_iff i j)

pub is_table_sound : (t : Table) → is_table t ≡ true → IsTable t
is_table_sound [] h = tt
is_table_sound (p ∷ t) h =
    let (n, r) = both (is_new p.0 t) (is_table t) h in (is_new_sound p.0 t n, is_table_sound t r)

abbrev AreAway : Table → Values → Type 0
AreAway t q = All (λ p. IsAway p.0 q) t

put_value-append :
    (k v : String) (q : Values) → IsAway k q → put_value k v q ≡ q ++ ((k, v ∷ []) ∷ [])
unfolding put_value
put_value-append k v [] a = refl
put_value-append k v ((j, vs) ∷ q) (n, a) =
    let e : (j == k) ≡ false = ground (arith, n, eq_iff j k) in
    rw e (ap (λ r. (j, vs) ∷ r) (put_value-append k v q a))

put_option-AreAway :
    (k : String) (o : Option String) (t : Table) (q : Values)
    → All (λ p. k ≢ p.0) t
    → AreAway t q
    → AreAway t (q ++ present_values ((k, o) ∷ []))
put_option-AreAway k o [] q n a = tt
put_option-AreAway k none (p ∷ t) q n a =
    (All-append _ q [] a.0 tt, put_option-AreAway k none t q n.1 a.1)
put_option-AreAway k (some v) (p ∷ t) q n a = (
  All-append _ q ((k, v ∷ []) ∷ []) a.0 ((λ e. n.0 (sym e)), tt),
  put_option-AreAway k (some v) t q n.1 a.1,
)

put_option-append :
    (k : String) (o : Option String) (q : Values)
    → IsAway k q
    → put_option k o q ≡ q ++ present_values ((k, o) ∷ [])
put_option-append k none q a = sym (append-nil q)
put_option-append k (some v) q a = put_value-append k v q a

present_values-cons :
    (k : String) (o : Option String) (t : Table)
    → present_values ((k, o) ∷ []) ++ present_values t ≡ present_values ((k, o) ∷ t)
present_values-cons k none t = refl
present_values-cons k (some v) t = refl

fill_table-append :
    (t : Table) (q : Values) → IsTable t → AreAway t q → fill_table t q ≡ q ++ present_values t
fill_table-append [] q d a = sym (append-nil q)
fill_table-append ((k, o) ∷ t) q d a =
    ap (fill_table t) (put_option-append k o q a.0)
    ∙ fill_table-append t (q ++ present_values ((k, o) ∷ [])) d.1
        (put_option-AreAway k o t q d.0 a.1)
    ∙ append_assoc q (present_values ((k, o) ∷ [])) (present_values t)
    ∙ ap (λ r. q ++ r) (present_values-cons k o t)

AreAway-nil : (t : Table) → AreAway t []
AreAway-nil [] = tt
AreAway-nil (p ∷ t) = (tt, AreAway-nil t)

-- The setters of a table, called in turn on no parameters, set just what has a value.
pub fill_table-present_values : (t : Table) → IsTable t → fill_table t [] ≡ present_values t
fill_table-present_values t d = fill_table-append t [] d (AreAway-nil t)

present_values-IsAway :
    (k : String) (t : Table) → All (λ p. k ≢ p.0) t → IsAway k (present_values t)
present_values-IsAway k [] a = tt
present_values-IsAway k ((j, none) ∷ t) a = present_values-IsAway k t a.1
present_values-IsAway k ((j, some v) ∷ t) a = (a.0, present_values-IsAway k t a.1)

pub present_values-IsQuery : (t : Table) → IsTable t → IsQuery (present_values t)
present_values-IsQuery [] d = tt
present_values-IsQuery ((k, none) ∷ t) d = present_values-IsQuery t d.1
present_values-IsQuery ((k, some v) ∷ t) d =
    (present_values-IsAway k t d.0, present_values-IsQuery t d.1)
