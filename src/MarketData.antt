-- ===== src/MarketData.antt =====
-- The Market Data API: the package marketdata. Decoders of responses are parameters.
pub mod Requests
pub mod Categorized
pub mod Watchlists
pub mod Responses
pub mod Bars
mod Samples
use webull.Common.{String, Option, some, [], ◌∷◌, if◌then◌else◌}
use webull.Errors.{Error, Result, has_code, not_subscribed, sentinel, join, ok, err}
use webull.Transport.Url.{Bytes, Values}
use webull.Transport.Http.{Env, Net}
use webull.Transport.Attempt.{Doer}
use webull.Transport.Doer.{get, post}

pub record MarketClient : Type 0 where
  pub doer : Doer
  pub host : String

abbrev pub not_subscribed_code : String
not_subscribed_code = "MARKET_DATA_NOT_SUBSCRIBED"

-- classify
unfoldable pub classify_market : Error → Error
classify_market e =
    if has_code e (not_subscribed_code ∷ []) then join (sentinel not_subscribed) e else e

abbrev pub named_error {ℓ} : {A : Type ℓ} → Result A → Result A
named_error (ok a) = ok a
named_error (err e) = err (classify_market e)

abbrev no_body : Unit {0} → Result Bytes
no_body u = ok []

-- Client.get
unfoldable pub get_market {ℓ} :
    {A : Type ℓ}
    → Env
    → MarketClient
    → String
    → Values
    → (Bytes → Result A)
    → Net
    → Result (Option A) × Net
get_market env c path q read net =
    let (r, n) = get no_body c.doer env c.host path q (some read) net in (named_error r, n)

-- Client.post
unfoldable pub post_market {ℓ κ} :
    {A : Type ℓ} {B : Type κ}
    → (B → Result Bytes)
    → Env
    → MarketClient
    → String
    → B
    → (Bytes → Result A)
    → Net
    → Result (Option A) × Net
post_market marshal env c path body read net =
    let (r, n) = post marshal c.doer env c.host path (some body) (some read) net in
    (named_error r, n)
