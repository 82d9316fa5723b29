-- ===== src/Connect.antt =====
-- The token source of a Connect client: connect/client.go, with the expiry of tokens of
-- connect/connect.go. A call of `valid` has two halves, since the exchange of the refresh token runs
-- outside the lock: what it does up to the exchange or the wait, and what follows the exchange. Halves
-- of different calls come in any order. Times and durations are nanoseconds; what the store loads and
-- what the exchange returns are arguments.
pub mod Flight
pub mod Decision
pub mod Lifetimes
pub mod Session
pub mod Oauth
pub mod Rotation
pub mod Samples
use webull.Common.{
  ℕ, suc, ◌-◌, ◌*◌, ◌%◌, ◌^◌, String, Bool, true, false, not, ◌&&◌, Option, none, some, List, [],
  ◌∷◌, ◌==◌, ltb, if◌then◌else◌,
}
use webull.Common.Int.{ℤ, ◌+ℤ◌, ltb_ℤ, pos, negsuc}
use webull.Errors.{Error, Result, no_token, refresh_expired, sentinel, wrap, ok, err}

pub record Token : Type 0 where
  pub access_token : String
  pub refresh_token : String
  pub token_type : String
  pub access_expires_in : ℤ
  pub refresh_expires_in : ℤ
  pub created_at : ℤ
  pub identity_id : String

-- The signed reading of 64 bits.
abbrev pub signed : ℕ → ℤ
signed p = if ltb p (2 ^ 63) then pos p else negsuc (2 ^ 64 - p - 1)

-- time.Duration(n) * time.Second, in 64 bits with a sign.
unfoldable pub duration_of : ℤ → ℤ
duration_of (pos n) = signed (n * 1000000000 % 2 ^ 64)
duration_of (negsuc n) = signed ((2 ^ 64 - suc n * 1000000000 % 2 ^ 64) % 2 ^ 64)

-- AccessExpiry and RefreshExpiry
unfoldable pub access_expiry : Token → ℤ
access_expiry t = t.created_at +ℤ duration_of t.access_expires_in

unfoldable pub refresh_expiry : Token → ℤ
refresh_expiry t = t.created_at +ℤ duration_of t.refresh_expires_in

abbrev pub refresh_leeway : ℤ
refresh_leeway = pos 60000000000

-- accessValid, with the leeway of the token source.
unfoldable pub access_valid : Token → ℤ → Bool
access_valid t now = not (t.access_token == "") && ltb_ℤ (now +ℤ refresh_leeway) (access_expiry t)

-- tok, and the refresh token of the call in flight, if there is one.
pub record TokenSource : Type 0 where
  pub tok : Option Token
  pub inflight : Option String

-- What the first half of a call of `valid` comes to: a token, an error, waiting for the call in flight,
-- or the exchange of a refresh token.
pub data Reply : Type 0 where
  usable : Token → Reply
  failure : Error → Reply
  waits : Reply
  exchanges : String → Reply

-- s.tok, loaded from the store if there is none.
abbrev pub loaded : Option Token → Result (Option Token) → Result (Option Token)
loaded (some t) load = ok (some t)
loaded none (ok t) = ok t
loaded none (err e) = err (wrap "connect: loading token" e)

abbrev pub join_flight : Token → Option String → TokenSource → Reply × TokenSource
join_flight t (some r) s = (waits, s)
join_flight t none s = (exchanges t.refresh_token, record s { inflight = some t.refresh_token })

unfoldable pub decide : ℤ → Result (Option Token) → TokenSource → Reply × TokenSource
decide now (err e) s = (failure e, s)
decide now (ok none) s = (failure (sentinel no_token), s)
decide now (ok (some t)) s =
    let s' = record s { tok = some t } in
    if access_valid t now
    then (usable t, s')
    else if not (ltb_ℤ now (refresh_expiry t))
    then (failure (sentinel refresh_expired), s')
    else join_flight t s.inflight s'

-- tokenSource.valid, up to the exchange.
unfoldable pub begin : Result (Option Token) → ℤ → TokenSource → Reply × TokenSource
begin load now s = decide now (loaded s.tok load) s

abbrev saved : Token → Option Error → Result Token
saved t none = ok t
saved t (some e) = err (wrap "connect: saving refreshed token" e)

-- tokenSource.valid, from the exchange on: the result, which those who wait share. The new pair is kept
-- even when saving it failed.
unfoldable pub finish : Result Token → Option Error → TokenSource → Result Token × TokenSource
finish (err e) save s = (err e, record s { inflight = none })
finish (ok t) save s = (saved t save, record s { tok = some t; inflight = none })

-- What happens to a token source, in order: calls begin, and exchanges finish. An exchange can finish
-- only where one is in flight.
pub data Call : Type 0 where
  begins : (load : Result (Option Token)) → (now : ℤ) → Call
  finishes : (answer : Result Token) → (save : Option Error) → Call

abbrev pub is_busy : Option String → Bool
is_busy none = false
is_busy (some r) = true

-- The refresh tokens exchanged, in order, and the source at the end.
abbrev logged : Reply → List String → List String
logged (exchanges r) rs = r ∷ rs
logged _ rs = rs

unfoldable pub run : TokenSource → List Call → List String × TokenSource
run s [] = ([], s)
run s (begins load now ∷ cs) =
    let (reply, s') = begin load now s in let (rs, end) = run s' cs in (logged reply rs, end)
run s (finishes answer save ∷ cs) =
    run (if is_busy s.inflight then (finish answer save s).1 else s) cs
