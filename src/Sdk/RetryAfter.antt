-- ===== src/Sdk/RetryAfter.antt =====
-- The delay of a Retry-After header (client.go, retryAfterOf).
use webull.Common.{
  ℕ, ◌*◌, ◌≤◌, ◌≡◌, refl, ◌↔◌, Bool, true, false, Option, none, some, arith, ◌==◌, inl, inr,
  Bool-cases,
}
use webull.Common.Int.{ℤ, pos, negsuc}
use webull.Transport.Http.{Headers, get_header}
use webull.Sdk.{Platform, seconds, by_number, retry_after_of}

seconds_iff : (n : ℕ) → (seconds n ≡ pos (n * 1000000000)) ↔ (n ≤ 9223372036)
unfolding seconds
seconds_iff n = ground arith

-- What a delay is by the number and by the time until the date that the header holds, if it holds them: none
-- for an absent header; for a number that is not negative, so many seconds exactly if there are at most
-- 9223372036; else the time until the date, if this is yet to come; else none.
abbrev pub IsDelay : (absent : Bool) (number date : Option ℤ) → ℤ → Type 0
IsDelay true number date x = x ≡ pos 0
IsDelay false (some (pos n)) date x = (x ≡ pos (n * 1000000000)) ↔ (n ≤ 9223372036)
IsDelay false (some (negsuc n)) (some (pos d)) x = x ≡ pos d
IsDelay false (some (negsuc n)) (some (negsuc d)) x = x ≡ pos 0
IsDelay false (some (negsuc n)) none x = x ≡ pos 0
IsDelay false none (some (pos d)) x = x ≡ pos d
IsDelay false none (some (negsuc d)) x = x ≡ pos 0
IsDelay false none none x = x ≡ pos 0

by_number-IsDelay : (number date : Option ℤ) → IsDelay false number date (by_number number date)
by_number-IsDelay (some (pos n)) date = seconds_iff n
by_number-IsDelay (some (negsuc n)) (some (pos d)) = refl
by_number-IsDelay (some (negsuc n)) (some (negsuc d)) = refl
by_number-IsDelay (some (negsuc n)) none = refl
by_number-IsDelay none (some (pos d)) = refl
by_number-IsDelay none (some (negsuc d)) = refl
by_number-IsDelay none none = refl

-- The delay that is read of a Retry-After header: none if the header is absent; if it is a number that is
-- not negative, so many seconds exactly if there are at most 9223372036, as more do not fit in 64 bits with
-- a sign and wrap around; else the time until its date, if it is one and yet to come; else none.
pub retry_after_of-IsDelay :
    (p : Platform) (h : Headers)
    → (let v = get_header "Retry-After" h in
        IsDelay (v == "") (p.atoi v) (p.until_date v) (retry_after_of p h))
unfolding retry_after_of
retry_after_of-IsDelay p h = elim (Bool-cases (get_header "Retry-After" h == "")) [
  | inl e ↦ rw e refl
  | inr e ↦ rw e (
      by_number-IsDelay (p.atoi (get_header "Retry-After" h))
        (p.until_date (get_header "Retry-After" h)))
]
