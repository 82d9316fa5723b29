-- ===== src/Transport/Retry.antt =====
-- The retry policy: internal/transport/retry.go. Durations are in nanoseconds.
pub mod Backoff
use webull.Common.{ℕ, ◌-◌, ◌*◌, ◌^◌, String, Bool, false, not, ◌||◌, ltb, leb, if◌then◌else◌}
use webull.Common.Int.{ℤ, pos_part, ltb_ℤ, leb_ℤ, pos}
use webull.Transport.Method.{is_idempotent}

pub record RetryPolicy : Type 0 where
  pub max_attempts : ℕ  -- a negative value counts as 0
  pub base_delay : ℤ
  pub max_delay : ℤ

-- What the code uses of the machine's floating point: the nearest float64 of a whole number, and
-- what a float64 beyond the range of int64 is converted to.
pub record Float : Type 0 where
  pub round : ℕ → ℕ
  pub beyond : ℤ

abbrev pub millisecond : ℕ
millisecond = 1000000

unfoldable pub default_retry_policy : RetryPolicy
default_retry_policy = record {
  max_attempts = 3;
  base_delay = pos (200 * millisecond);
  max_delay = pos (2000 * millisecond);
}

unfoldable pub retry_status : RetryPolicy → ℕ → String → Bool
retry_status p status method = if not (is_idempotent method) then false else leb 500 status

unfoldable pub retry_transport : RetryPolicy → String → Bool
retry_transport p method = is_idempotent method

abbrev pub int64_limit : ℕ
int64_limit = 9223372036854775808

unfoldable pub effective_base : RetryPolicy → ℤ
effective_base p = if leb_ℤ p.base_delay (pos 0) then pos (200 * millisecond) else p.base_delay

unfoldable pub effective_max : RetryPolicy → ℤ
effective_max p = if leb_ℤ p.max_delay (pos 0) then pos (2000 * millisecond) else p.max_delay

-- time.Duration(float64(base) * math.Pow(2, float64(attempt-1))): multiplying by a power of two
-- rounds nothing.
pub doubled : Float → ℕ → ℕ → ℤ
doubled f base attempt =
    if ltb (f.round base * 2 ^ (attempt - 1)) int64_limit
    then pos (f.round base * 2 ^ (attempt - 1))
    else f.beyond

-- The delay before the given attempt, counting from 1.
pub backoff : Float → RetryPolicy → ℕ → ℤ
backoff f p attempt =
    let limit = effective_max p in
    let d = doubled f (pos_part (effective_base p)) attempt in
    if ltb_ℤ limit d || leb_ℤ d (pos 0) then limit else d
