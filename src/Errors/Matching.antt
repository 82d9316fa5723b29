-- ===== src/Errors/Matching.antt =====
-- What errors.Is and errors.As find in an API error (errors.go).
use webull.Common.{◌≡◌, ◌↔◌, ◌⊎◌, true, arith}
use webull.Errors.{
  Sentinel, ApiError, Error, api, join, api_is, temporary, is_error, authentication, permission,
  invalid_request, not_found, rate_limited, server,
}

-- The sentinels that an API error can match.
abbrev pub IsStatusClass : Sentinel → Type 0
IsStatusClass s =
    (s ≡ authentication)
    ⊎ (s ≡ permission)
    ⊎ (s ≡ invalid_request)
    ⊎ (s ≡ not_found)
    ⊎ (s ≡ rate_limited)
    ⊎ (s ≡ server)

-- An API error matches at most one sentinel.
api_is_unique : (e : ApiError) (s t : Sentinel) → api_is e s ≡ true → api_is e t ≡ true → s ≡ t
unfolding api_is
api_is_unique e authentication t h k = ground arith
api_is_unique e permission t h k = ground arith
api_is_unique e invalid_request t h k = ground arith
api_is_unique e not_found t h k = ground arith
api_is_unique e rate_limited t h k = ground arith
api_is_unique e server t h k = ground arith
api_is_unique e _ t h k = cc

-- An API error is temporary exactly if it is a rate limit or a server error.
pub temporary_iff :
    (e : ApiError)
    → (temporary e ≡ true)
      ↔ ((is_error (api e) rate_limited ≡ true) ⊎ (is_error (api e) server ≡ true))
unfolding temporary is_error api_is
temporary_iff e = ground arith

-- Wrapping hides nothing: what an error matches, its wrapping matches.
pub is_error-join_right :
    (e f : Error) (s : Sentinel) → is_error f s ≡ true → is_error (join e f) s ≡ true
unfolding is_error
is_error-join_right e f s h = ground arith
