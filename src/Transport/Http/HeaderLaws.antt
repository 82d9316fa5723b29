-- ===== src/Transport/Http/HeaderLaws.antt =====
-- Header maps: a write is read back, and what is written last wins (http.Header).

use webull.Common.{
  ℕ, String, ◌≡◌, refl, ◌↔◌, Bool, true, false, ◌||◌, List, [], ◌∷◌, map, arith, if◌then◌else◌,
  codes,
}
use webull.Transport.Http.{
  Headers, to_lower, same_folded, same_key, set_header, get_header, set_all,
}

abbrev folded : List ℕ → List ℕ
folded xs = map to_lower xs

same_folded_iff : (xs ys : List ℕ) → (same_folded xs ys ≡ true) ↔ (folded xs ≡ folded ys)
unfolding same_folded
same_folded_iff [] [] = ((λ h. refl), (λ h. refl))
same_folded_iff [] (y ∷ ys) = ((λ h. cc), (λ h. cc))
same_folded_iff (x ∷ xs) [] = ((λ h. cc), (λ h. cc))
same_folded_iff (x ∷ xs) (y ∷ ys) = ground (arith, same_folded_iff xs ys)

same_key_iff : (a b : String) → (same_key a b ≡ true) ↔ (folded (codes a) ≡ folded (codes b))
unfolding same_key
same_key_iff a b = same_folded_iff (codes a) (codes b)

-- Header.Get after Header.Set.
pub get_header-set_header :
    (k j v : String) (h : Headers)
    → get_header k (set_header j v h) ≡ (if same_key j k then v else get_header k h)
unfolding get_header set_header
get_header-set_header k j v [] = refl
get_header-set_header k j v ((i, w) ∷ h) =
    ground
      (arith, same_key_iff i j, same_key_iff i k, same_key_iff j k, get_header-set_header k j v h)

-- Whether some header of the list has the key.
unfoldable pub has_key : String → Headers → Bool
has_key k [] = false
has_key k ((j, v) ∷ h) = same_key j k || has_key k h

-- What is set on top of a header map does not depend on the map, where the key is set.
pub get_header-set_all :
    (k : String) (new h : Headers)
    → get_header k (set_all new h)
      ≡ (if has_key k new then get_header k (set_all new []) else get_header k h)
unfolding set_all has_key
get_header-set_all k [] h = refl
get_header-set_all k ((j, v) ∷ new) h = ground (
  arith,
  get_header-set_all k new (set_header j v h),
  get_header-set_all k new (set_header j v []),
  get_header-set_header k j v h,
  get_header-set_header k j v [],
)
