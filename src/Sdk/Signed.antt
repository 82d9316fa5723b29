-- ===== src/Sdk/Signed.antt =====
-- Every request of a root client passes the server's check of its signature: client.go over
-- internal/transport and internal/signing.
pub mod Samples
use webull.Common.{◌≡◌, refl, true, ◌==◌, inl, inr, Bool-cases, Option}
use webull.Errors.{Result}
use webull.Transport.Url.{Bytes}
use webull.Transport.Http.{HttpRequest, Env, Net}
use webull.Transport.Attempt.{Request, authorize, authorize_by}
use webull.Transport.Doer.{do_request}
use webull.Transport.Doer.Sent.{AllSent, do_request-AllSent}
use webull.Query.{IsQuery}
use webull.Signing.{Signer}
use webull.Signing.Verification.{verify, verify-build}
use webull.Sdk.{Platform, Config, new_doer}

-- The signer of a configuration.
abbrev pub signer_of : Platform → Config → Signer
signer_of p cfg = record { app_key = cfg.app_key; app_secret = cfg.app_secret; crypto = p.crypto }

abbrev pub IsVerified : Platform → Config → HttpRequest → Type 0
IsVerified p cfg h = verify (signer_of p cfg) h ≡ true

-- The access token is sent along without a request of its own.
authorize-silent :
    (p : Platform) (cfg : Config) (net : Net) → (authorize (new_doer p cfg) net).1 ≡ net
unfolding authorize authorize_by new_doer
authorize-silent p cfg net = elim (Bool-cases (cfg.access_token == "")) [
  | inl e ↦ rw e refl
  | inr e ↦ rw e refl
]

-- Whatever a client calls, with whatever answers of the network and however often it retries, every
-- request that it sends passes the check of a server that knows the secret of the key, and that reads the
-- host, the path, the query string, the body and the headers as they were sent; provided that the query
-- names each parameter once, as a map does.
pub do_request-IsVerified {ℓ κ} :
    {B : Type ℓ} {O : Type κ} (p : Platform) (cfg : Config) (env : Env) (marshal : B → Result Bytes)
    (req : Request B) (want : Option (Bytes → Result O)) (net : Net)
    → IsQuery req.query
    → AllSent (IsVerified p cfg) net
    → AllSent (IsVerified p cfg) (do_request marshal (new_doer p cfg) env req want net).1
unfolding new_doer
do_request-IsVerified p cfg env marshal req want net m h =
    do_request-AllSent (IsVerified p cfg) (new_doer p cfg) env req want (cfg.http_client, refl)
      (λ body auth n. verify-build (signer_of p cfg) (new_doer p cfg) refl req body auth n m)
      marshal net h (rw (authorize-silent p cfg net) h)
