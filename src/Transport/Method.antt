-- ===== src/Transport/Method.antt =====
-- isIdempotent: which methods may be replayed (internal/transport/transport.go).
use webull.Common.{
  ℕ, ◌-◌, String, ◌≡◌, refl, Bool, true, false, ◌&&◌, ◌||◌, List, [], ◌∷◌, map, leb, beq,
  if◌then◌else◌, codes,
}

-- strings.ToUpper, as far as the comparison with ASCII names can tell: the letters a to z, and the
-- two other characters (dotless i, long s) whose upper case is an ASCII letter.
to_upper : ℕ → ℕ
to_upper c =
    if leb b'a' c && leb c b'z'
    then c - 32
    else if beq c 0x131
    then b'I'
    else if beq c 0x17f
    then b'S'
    else c

same_codes : List ℕ → List ℕ → Bool
same_codes [] [] = true
same_codes (x ∷ xs) (y ∷ ys) = beq x y && same_codes xs ys
same_codes _ _ = false

unfoldable pub is_idempotent : String → Bool
unfolding to_upper same_codes
is_idempotent method =
    same_codes upper (codes "GET")
    || same_codes upper (codes "HEAD")
    || same_codes upper (codes "OPTIONS")
  where
    upper : List ℕ
    upper = map to_upper (codes method)

idempotent_tests :
    (is_idempotent "get" ≡ true)
    × (is_idempotent "POST" ≡ false)
    × (is_idempotent "Options" ≡ true)
    × (is_idempotent "" ≡ false)
unfolding is_idempotent
idempotent_tests = (refl, refl, refl, refl)
