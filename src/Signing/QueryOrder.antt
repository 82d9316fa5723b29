-- ===== src/Signing/QueryOrder.antt =====
-- The signature of a request does not depend on the order of its query map
-- (internal/signing/signing.go).
use mathlib.Core.Path.{subst}
use webull.Query.{find_values, IsQuery}
use webull.Transport.Attempt.{SignRequest}
use webull.Common.{
  ℕ, String, ◌≡◌, refl, sym, ap, ◌∙◌, ◌≢◌, inl, inr, Bool, true, false, Option, none, some, List,
  [], ◌∷◌, ◌++◌, arith, ◌==◌, eq_iff, if◌then◌else◌, Bool-cases, All,
}
use webull.Transport.Url.{Bytes, Values, utf8}
use webull.Signing.{
  Signer, Params, signature_headers, header_params, append_param, append_values, append_query,
  sort_params, canonical_plain, canonical, sign,
}
use webull.Signing.Parameters.{find_param, IsAway, IsMap, sort_params_unique}

abbrev joined : Option Bytes → Bytes → Bytes
joined none v = v
joined (some w) v = w ++ b'&' ∷ v

abbrev joined_all : Option Bytes → List String → Option Bytes
joined_all o [] = o
joined_all o (v ∷ vs) = joined_all (some (joined o (utf8 v))) vs

find-append_param :
    (k j : String) (v : Bytes) (ps : Params)
    → find_param k (append_param j v ps)
      ≡ (if j == k then some (joined (find_param k ps) v) else find_param k ps)
unfolding append_param
find-append_param k j v [] = refl
find-append_param k j v ((i, w) ∷ ps) = elim (Bool-cases (i == j)) [
  | inl e ↦ let same : i ≡ j = ground (arith, e, eq_iff i j) in rw same (ground (arith, eq_iff j j))
  | inr e ↦ rw e (ground (arith, e, find-append_param k j v ps, eq_iff i j, eq_iff i k, eq_iff j k))
]

find-append_values :
    (k j : String) (vs : List String) (ps : Params)
    → find_param k (append_values j vs ps)
      ≡ (if j == k then joined_all (find_param k ps) vs else find_param k ps)
unfolding append_values
find-append_values k j [] ps = ground arith
find-append_values k j (v ∷ vs) ps =
    find-append_values k j vs (append_param j (utf8 v) ps)
    ∙ ap (λ o. if j == k then joined_all o vs else o) (find-append_param k j (utf8 v) ps)
    ∙ nested (j == k) _ _ (λ o. joined_all o vs)
  where
    nested :
        (b : Bool) (x y : Option Bytes) (f : Option Bytes → Option Bytes)
        → (if b then f (if b then x else y) else (if b then x else y)) ≡ (if b then f x else y)
    nested true x y f = refl
    nested false x y f = refl

merged : Option Bytes → Option (List String) → Option Bytes
merged o none = o
merged o (some vs) = joined_all o vs

find_values-away : (k : String) (q : Values) → All (λ p. k ≢ p.0) q → find_values k q ≡ none
find_values-away k [] a = refl
find_values-away k ((j, vs) ∷ q) (n, a) = ground (arith, n, eq_iff j k, find_values-away k q a)

find-append_query :
    (k : String) (q : Values) (ps : Params)
    → IsQuery q
    → find_param k (append_query q ps) ≡ merged (find_param k ps) (find_values k q)
unfolding append_query merged
find-append_query k [] ps m = refl
find-append_query k ((j, vs) ∷ q) ps (a, m) =
    find-append_query k q (append_values j vs ps) m
    ∙ ap (λ o. merged o (find_values k q)) (find-append_values k j vs ps)
    ∙ elim (Bool-cases (j == k)) [
      | inl e ↦
          let same : j ≡ k = ground (arith, e, eq_iff j k) in
          let none_left = find_values-away k q (subst (λ x. All (λ p. x ≢ p.0) q) same a) in
          rw (e, none_left) refl
      | inr e ↦ rw e refl
    ]

append_param-IsAway :
    (i j : String) (v : Bytes) (ps : Params) → i ≢ j → IsAway i ps → IsAway i (append_param j v ps)
unfolding append_param
append_param-IsAway i j v [] n a = (n, tt)
append_param-IsAway i j v ((k, w) ∷ ps) n a = elim (Bool-cases (k == j)) [
  | inl e ↦ rw e (a.0, a.1)
  | inr e ↦ rw e (a.0, append_param-IsAway i j v ps n a.1)
]

append_param-IsMap : (j : String) (v : Bytes) (ps : Params) → IsMap ps → IsMap (append_param j v ps)
unfolding append_param
append_param-IsMap j v [] m = (tt, tt)
append_param-IsMap j v ((k, w) ∷ ps) m = elim (Bool-cases (k == j)) [
  | inl e ↦ rw e (m.0, m.1)
  | inr e ↦
      let n : k ≢ j = ground (arith, e, eq_iff k j) in
      rw e (append_param-IsAway k j v ps n m.0, append_param-IsMap j v ps m.1)
]

append_values-IsMap :
    (j : String) (vs : List String) (ps : Params) → IsMap ps → IsMap (append_values j vs ps)
unfolding append_values
append_values-IsMap j [] ps m = m
append_values-IsMap j (v ∷ vs) ps m =
    append_values-IsMap j vs (append_param j (utf8 v) ps) (append_param-IsMap j (utf8 v) ps m)

append_query-IsMap : (q : Values) (ps : Params) → IsMap ps → IsMap (append_query q ps)
unfolding append_query
append_query-IsMap [] ps m = m
append_query-IsMap ((j, vs) ∷ q) ps m =
    append_query-IsMap q (append_values j vs ps) (append_values-IsMap j vs ps m)

-- What Sign starts from: the host and the five headers.
header-IsMap :
    (s : Signer) (n : ℕ) (host : Bytes)
    → IsMap (("host", host) ∷ header_params (signature_headers s n))
unfolding signature_headers
header-IsMap s n host = (
  ((λ e. cc), ((λ e. cc), ((λ e. cc), ((λ e. cc), ((λ e. cc), tt))))),
  (
    ((λ e. cc), ((λ e. cc), ((λ e. cc), ((λ e. cc), tt)))),
    (
      ((λ e. cc), ((λ e. cc), ((λ e. cc), tt))),
      (((λ e. cc), ((λ e. cc), tt)), (((λ e. cc), tt), (tt, tt))),
    ),
  ),
)

-- Two listings of one map have one canonical text.
pub canonical-query_order :
    (s : Signer) (n : ℕ) (req : SignRequest) (q : Values)
    → IsQuery req.query
    → IsQuery q
    → ((k : String) → find_values k q ≡ find_values k req.query)
    → canonical s.crypto (record req { query = q }) (signature_headers s n)
      ≡ canonical s.crypto req (signature_headers s n)
unfolding canonical canonical_plain
canonical-query_order s n req q m m' h =
    let start = ("host", utf8 req.host) ∷ header_params (signature_headers s n) in
    let d = header-IsMap s n (utf8 req.host) in
    let same : sort_params (append_query q start) ≡ sort_params (append_query req.query start) =
      sort_params_unique (append_query q start) (append_query req.query start)
        (append_query-IsMap q start d) (append_query-IsMap req.query start d)
        (λ k.
          find-append_query k q start m'
          ∙ ap (merged (find_param k start)) (h k)
          ∙ sym (find-append_query k req.query start m)) in
    rw same refl

-- The signature headers of a request depend on its query as a map only: two listings of one map, in
-- whatever order Go walks it, are signed alike.
pub sign-query_order :
    (s : Signer) (n : ℕ) (req : SignRequest) (q : Values)
    → IsQuery req.query
    → IsQuery q
    → ((k : String) → find_values k q ≡ find_values k req.query)
    → sign s n (record req { query = q }) ≡ sign s n req
unfolding sign
sign-query_order s n req q m m' h = rw (canonical-query_order s n req q m m' h) refl
