-- ===== src/Transport/Retry/Backoff.antt =====
-- Bounds and the exact value of the backoff (internal/transport/retry.go).
use native.Mathlib.Nat.{one-le-pow}
use webull.Common.{ℕ, min, ◌-◌, ◌*◌, ◌^◌, ◌<◌, ◌≡◌, ◌⊎◌, ◌||◌, arith, ltb, if◌then◌else◌}
use webull.Common.Int.{ℤ, pos_part, ◌≤ℤ◌, ◌<ℤ◌, ltb_ℤ, leb_ℤ, pos, negsuc}
use webull.Transport.Retry.{
  RetryPolicy, Float, int64_limit, effective_base, effective_max, doubled, backoff,
}

-- The doubling sequence capped by the maximum.
abbrev pub capped : RetryPolicy → ℕ → ℕ
capped p attempt =
    min (pos_part (effective_base p) * 2 ^ (attempt - 1)) (pos_part (effective_max p))

effective_base-pos : (p : RetryPolicy) → pos 0 <ℤ effective_base p
unfolding effective_base
effective_base-pos p = ground arith

effective_max-pos : (p : RetryPolicy) → pos 0 <ℤ effective_max p
unfolding effective_max
effective_max-pos p = ground arith

-- Whatever the floating point does, every delay is positive and at most the effective maximum.
pub backoff_bounds :
    (f : Float) (p : RetryPolicy) (attempt : ℕ)
    → (pos 0 <ℤ backoff f p attempt) × (backoff f p attempt ≤ℤ effective_max p)
unfolding backoff
backoff_bounds f p attempt = ground (arith, effective_max-pos p)

mul-pos : (a b : ℕ) → 0 < a → 0 < b → 0 < a * b
mul-pos a b h k = grind arith

-- The guard of `backoff` on a delay `t` that may not fit in int64.
guard_capped :
    (limit : ℤ) (t : ℕ) (beyond : ℤ)
    → pos 0 <ℤ limit
    → pos_part limit < int64_limit
    → 0 < t
    → (beyond ≤ℤ pos 0) ⊎ (limit <ℤ beyond)
    → (let d : ℤ = if ltb t int64_limit then pos t else beyond in
        if ltb_ℤ limit d || leb_ℤ d (pos 0) then limit else d)
      ≡ pos (min t (pos_part limit))
guard_capped (pos limit) t beyond l f h r = ground arith
guard_capped (negsuc limit) t beyond l f h r = ground arith

-- Where the base delay is exact in floating point and an out-of-range conversion gives a value that
-- the guard replaces, the delay is the base doubled for each attempt and capped by the maximum.
pub backoff-eq-capped :
    (f : Float) (p : RetryPolicy) (attempt : ℕ)
    → f.round (pos_part (effective_base p)) ≡ pos_part (effective_base p)
    → (f.beyond ≤ℤ pos 0) ⊎ (effective_max p <ℤ f.beyond)
    → pos_part (effective_max p) < int64_limit
    → backoff f p attempt ≡ pos (capped p attempt)
unfolding backoff doubled
backoff-eq-capped f p attempt exact replaced fits = rw exact (
    guard_capped (effective_max p) (pos_part (effective_base p) * 2 ^ (attempt - 1)) f.beyond
      (effective_max-pos p) fits
      (mul-pos _ _ (omega (arith, effective_base-pos p)) (one-le-pow (attempt - 1) 2 (omega arith)))
      replaced)
