-- ===== src/Sdk/Tokens.antt =====
-- Access tokens: auth.go, and Client.get and TokenCheckEnabled of client.go. The codecs of encoding/json
-- are parameters.
use webull.Common.{String, Bool, false, Option, none, some, []}
use webull.Common.Int.{ℤ}
use webull.Errors.{Result, ok, err}
use webull.Transport.Url.{Bytes}
use webull.Transport.Http.{Env, Net}
use webull.Transport.Doer.{get, post}
use webull.Sdk.{host, SdkClient, trading}

pub record AccessToken : Type 0 where
  pub token : String
  pub expires_at : Option ℤ
  pub status : String

-- The body of a check, a map with the token.
pub record TokenBody : Type 0 where
  pub token : String

pub record TokenWire : Type 0 where
  pub marshal : TokenBody → Result Bytes
  pub read_token : Bytes → Result AccessToken
  pub read_enabled : Bytes → Result Bool

module _ (w : TokenWire) (env : Env) (c : SdkClient) where
  abbrev zero_token : AccessToken
  zero_token = record { token = ""; expires_at = none; status = "" }

  abbrev or_zero {ℓ} : {A : Type ℓ} → A → Result (Option A) → Result A
  or_zero z (ok none) = ok z
  or_zero z (ok (some a)) = ok a
  or_zero z (err e) = err e

  abbrev token_at : String → Option TokenBody → Result String → Net → Result AccessToken × Net
  token_at path body (err e) net = (err e, net)
  token_at path body (ok h) net =
      let (r, n) = post w.marshal c.doer env h path body (some w.read_token) net in
      (or_zero zero_token r, n)

  -- postToken
  unfoldable pub post_token : String → Option TokenBody → Net → Result AccessToken × Net
  post_token path body net = token_at path body (host c.config trading) net

  -- CreateAccessToken
  unfoldable pub create_access_token : Net → Result AccessToken × Net
  create_access_token net = post_token "/auth/tokens/create" none net

  -- CheckAccessToken
  unfoldable pub check_access_token : String → Net → Result AccessToken × Net
  check_access_token t net = post_token "/auth/tokens/check" (some (record { token = t })) net

  abbrev enabled_at : Result String → Net → Result Bool × Net
  enabled_at (err e) net = (err e, net)
  enabled_at (ok h) net =
      let (r, n) = get w.marshal c.doer env h "/openapi/config" [] (some w.read_enabled) net in
      (or_zero false r, n)

  -- TokenCheckEnabled
  unfoldable pub token_check_enabled : Net → Result Bool × Net
  token_check_enabled net = enabled_at (host c.config trading) net
