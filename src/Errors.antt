-- ===== src/Errors.antt =====
-- Errors as values: errors.go and transport.HasCode (internal/transport/helpers.go).
-- A Go error is a tree of wrapped errors. Of the texts that fmt.Errorf builds only the constant
-- prefix is kept.
pub mod Matching
use webull.Common.{
  ℕ, String, ◌≡◌, refl, ap, ◌⊎◌, inl, inr, Bool, true, false, ◌||◌, Option, none, some, List, leb,
  beq, contains,
}
use webull.Common.Int.{ℤ}

-- The package-level errors that callers match with errors.Is.
pub data Sentinel : Type 0 where
  authentication permission invalid_request not_found rate_limited server : Sentinel
  response_too_large missing_credentials redirect_not_allowed : Sentinel
  invalid_order duplicate_order not_subscribed subscribe_failed watchlist_failed : Sentinel
  no_token refresh_expired auth_failed connection_limit : Sentinel
  canceled deadline_exceeded eof : Sentinel

pub Sentinel-discrete : Discrete Sentinel
Sentinel-discrete = hlevel

pub record ApiError : Type 0 where
  pub status_code : ℕ
  pub code : String
  pub message : String
  pub request_id : String
  pub retry_after : ℤ
  pub body : List ℕ
  pub truncated : Bool

pub data Error : Type 0 where
  sentinel : Sentinel → Error
  text : String → Error
  api : ApiError → Error
  wrap : String → Error → Error
  join : Error → Error → Error

pub data Result {ℓ} (A : Type ℓ) : Type ℓ where
  ok : A → Result A
  err : Error → Result A

infixl 10 ◌>>=◌
abbrev pub ◌>>=◌ {ℓ κ} : {A : Type ℓ} {B : Type κ} → Result A → (A → Result B) → Result B
ok a >>= f = f a
err e >>= f = err e

-- APIError.Is: which sentinel an HTTP status stands for.
unfoldable pub api_is : ApiError → Sentinel → Bool
api_is e authentication = beq e.status_code 401
api_is e permission = beq e.status_code 403
api_is e invalid_request = beq e.status_code 400 || beq e.status_code 417
api_is e not_found = beq e.status_code 404
api_is e rate_limited = beq e.status_code 429
api_is e server = leb 500 e.status_code
api_is e _ = false

-- APIError.Temporary
pub temporary : ApiError → Bool
temporary e = beq e.status_code 429 || leb 500 e.status_code

-- APIError.ErrorCode
abbrev pub error_code : ApiError → String
error_code e = e.code

abbrev same_sentinel : Sentinel → Sentinel → Bool
same_sentinel s t = elim (Sentinel-discrete s t) [ yes p ↦ true | no p ↦ false ]

-- errors.Is(err, target): the error itself, what it wraps, and each of what it joins.
unfoldable pub is_error : Error → Sentinel → Bool
is_error (sentinel s) t = same_sentinel s t
is_error (text s) t = false
is_error (api e) t = api_is e t
is_error (wrap s e) t = is_error e t
is_error (join e f) t = is_error e t || is_error f t

abbrev first_of_two : Option ApiError → Option ApiError → Option ApiError
first_of_two none b = b
first_of_two (some a) b = some a

-- errors.As(err, &coded): the first error of the tree that has an ErrorCode method.
unfoldable pub as_api : Error → Option ApiError
as_api (sentinel s) = none
as_api (text s) = none
as_api (api e) = some e
as_api (wrap s e) = as_api e
as_api (join e f) = first_of_two (as_api e) (as_api f)

-- transport.HasCode
unfoldable pub has_code : Error → List String → Bool
has_code e wanted = elim (as_api e) [ none ↦ false | some a ↦ contains wanted (error_code a) ]

-- To split on a result and keep the equation.
pub Result-cases {ℓ} :
    {A : Type ℓ} (r : Result A) → ((a : A) × (r ≡ ok a)) ⊎ ((e : Error) × (r ≡ err e))
Result-cases (ok a) = inl (a, refl)
Result-cases (err e) = inr (e, refl)

abbrev error_of {ℓ} : {A : Type ℓ} → Error → Result A → Error
error_of e (ok a) = e
error_of e (err f) = f

pub err_inj {ℓ} : {A : Type ℓ} {e f : Error} → Path (Result A) (err e) (err f) → e ≡ f
err_inj {e = e} h = ap (error_of e) h

pub is_error-sentinel : (s : Sentinel) → is_error (sentinel s) s ≡ true
unfolding is_error
is_error-sentinel s = go (Sentinel-discrete s s)
  where
    go : (d : Dec (s ≡ s)) → (elim d [ yes p ↦ true | no p ↦ false ]) ≡ true
    go (yes p) = refl
    go (no n) = elim (n refl) [ ]

abbrev value_of {ℓ} : {A : Type ℓ} → A → Result A → A
value_of a (ok b) = b
value_of a (err e) = a

pub ok_inj {ℓ} : {A : Type ℓ} {a b : A} → Path (Result A) (ok a) (ok b) → a ≡ b
ok_inj {a = a} h = ap (value_of a) h
