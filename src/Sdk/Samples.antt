-- ===== src/Sdk/Samples.antt =====
-- A sample configuration, and the theorems on the root client, on errors and on signatures at these
-- values.
use mathlib.Core.Path.{subst}
use webull.Common.{
  ◌≤◌, String, ◌≡◌, refl, ◌↔◌, inl, inr, false, none, some, [], ◌∷◌, map, arith, ◌==◌, eq_iff,
  Bool-cases, All, contains,
}
use webull.Common.Int.{pos}
use webull.Errors.{redirect_not_allowed, sentinel}
use webull.Transport.Url.{Values}
use webull.Transport.Attempt.{SignRequest}
use webull.Transport.Retry.{default_retry_policy, effective_base, effective_max, backoff}
use webull.Transport.Retry.Backoff.{capped, backoff-eq-capped}
use webull.Transport.Samples.{sample_float}
use webull.Query.{find_values}
use webull.Signing.{Signer, sign}
use webull.Signing.QueryOrder.{sign-query_order}
use webull.Sdk.{
  retry_after_of, Platform, sandbox, production_host, hosts, is_valid, Config, validate, override,
  host, SdkClient, new_doer, new_client, trading, streaming, events,
}
use webull.Sdk.Construction.{hosts_of, sandbox_isolated}
use webull.Sdk.RetryAfter.{retry_after_of-IsDelay}
use webull.Transport.Http.{get_header, same_key, same_folded, to_lower}

abbrev pub sample_platform : Platform
sample_platform = record {
  read_payload = λ b. record { code = ""; message = ""; gw_message = "" };
  atoi = λ s. none;
  until_date = λ s. none;
  runtime = "go1.24; linux/amd64";
  crypto = record {
    sha256 = λ b. b;
    hmac_sha256 = λ k m. m;
    base64 = λ b. "abc";
    timestamp = λ n. "2026-01-02T15:04:05Z";
    nonce = λ n. "nonce";
  };
  float = sample_float;
}

abbrev pub config : Config
config = record {
  app_key = "key";
  app_secret = "secret";
  environment = sandbox;
  http_client = none;
  endpoint_overrides = [];
  user_agent = "";
  access_token = "token";
}

abbrev sdk_client : SdkClient
sdk_client = record {
  config = config;
  doer = new_doer sample_platform config;
  trading_host = "api.sandbox.webull.com";
  market_data_host = "api.sandbox.webull.com";
  events_host = "events-api.sandbox.webull.com";
  streaming_host = "data-api.sandbox.webull.com";
  events_access_token = "token";
}

sandbox_isolated_example :
    (hosts_of sample_platform config sdk_client
      ≡ "api.sandbox.webull.com" ∷ "api.sandbox.webull.com" ∷ "events-api.sandbox.webull.com"
        ∷ "data-api.sandbox.webull.com" ∷ [])
    × All
        (λ h. contains (map production_host (trading ∷ streaming ∷ events ∷ [])) h ≡ false)
        (hosts_of sample_platform config sdk_client)
    × (sdk_client.doer.http_client.check_redirect ≡ some (sentinel redirect_not_allowed))
unfolding new_client validate is_valid hosts host override
sandbox_isolated_example = sandbox_isolated sample_platform config sdk_client refl refl refl

-- A platform that reads every number as 9223372037.
abbrev late : Platform
late = record sample_platform { atoi = λ s. some (pos 9223372037) }

retry_after_of-IsDelay_example :
    (retry_after_of late (("Retry-After", "9223372037") ∷ []) ≡ pos 9223372037000000000)
    ↔ (9223372037 ≤ 9223372036)
unfolding get_header same_key same_folded to_lower
retry_after_of-IsDelay_example = retry_after_of-IsDelay late (("Retry-After", "9223372037") ∷ [])

abbrev sample_signer : Signer
sample_signer = record { app_key = "key"; app_secret = "secret"; crypto = sample_platform.crypto }

abbrev bars_request : SignRequest
bars_request = record {
  host = "api.webull.com";
  path = "/market-data/bars";
  query = ("symbol", "AAPL" ∷ []) ∷ ("timespan", "M1" ∷ []) ∷ [];
  body = [];
}

abbrev walked_backwards : Values
walked_backwards = ("timespan", "M1" ∷ []) ∷ ("symbol", "AAPL" ∷ []) ∷ []

same_query : (k : String) → find_values k walked_backwards ≡ find_values k bars_request.query
same_query k = elim (Bool-cases ("symbol" == k)) [
  | inl e ↦
      let same : "symbol" ≡ k = ground (arith, e, eq_iff "symbol" k) in
      subst (λ x. find_values x walked_backwards ≡ find_values x bars_request.query) same refl
  | inr e ↦ rw e refl
]

sign-query_order_example :
    sign sample_signer 0 (record bars_request { query = walked_backwards })
    ≡ sign sample_signer 0 bars_request
sign-query_order_example =
    sign-query_order sample_signer 0 bars_request walked_backwards (((λ e. cc), tt), (tt, tt))
      (((λ e. cc), tt), (tt, tt)) same_query

backoff-eq-capped_example :
    backoff sample_float default_retry_policy 2 ≡ pos (capped default_retry_policy 2)
unfolding default_retry_policy effective_base effective_max
backoff-eq-capped_example =
    backoff-eq-capped sample_float default_retry_policy 2 refl (inl (omega arith)) (omega arith)
