-- ===== src/Sdk.antt =====
-- The root client: config.go, environment.go, version.go and client.go. What encoding/json reads of an
-- error body, the numeral and date readers of the standard library and the runtime's name are the
-- `Platform` that the client is built on.
pub mod Construction
pub mod Tokens
pub mod RetryAfter
pub mod Signed
pub mod Samples
use Prim.Native.String.{◌++◌ as ◌<>◌}
use webull.Common.{
  ℕ, ◌-◌, ◌*◌, ◌%◌, ◌^◌, String, Bool, true, false, ◌||◌, Option, none, some, List, [], ◌∷◌, ◌==◌,
  ltb, if◌then◌else◌,
}
use webull.Common.Int.{ℤ, pos, negsuc}
use webull.Errors.{
  ApiError, Error, Result, ◌>>=◌, missing_credentials, sentinel, text, api, ok, err,
}
use webull.Transport.Url.{Bytes}
use webull.Transport.Http.{Headers, get_header, Net, HttpClient, new_http_client}
use webull.Transport.Attempt.{Response, Doer}
use webull.Transport.Retry.{Float, default_retry_policy}
use webull.Signing.{Crypto, sign}

pub record ErrorPayload : Type 0 where
  pub code : String
  pub message : String
  pub gw_message : String

-- `read_payload` gives the fields that json.Unmarshal understood, `atoi` is strconv.Atoi, and
-- `until_date` is how long it is until an HTTP date, if the text is one.
pub record Platform : Type 0 where
  pub read_payload : Bytes → ErrorPayload
  pub atoi : String → Option ℤ
  pub until_date : String → Option ℤ
  pub runtime : String
  pub crypto : Crypto
  pub float : Float

-- Environment
abbrev pub Environment : Type 0
Environment = String

abbrev pub sandbox : Environment
sandbox = "sandbox"

abbrev pub production : Environment
production = "production"

-- service
pub data Service : Type 0 where
  trading market_data streaming events : Service

abbrev pub service_name : Service → String
service_name trading = "trading"
service_name market_data = "marketdata"
service_name streaming = "streaming"
service_name events = "events"

abbrev pub production_host : Service → String
production_host trading = "api.webull.com"
production_host market_data = "api.webull.com"
production_host streaming = "data-api.webull.com"
production_host events = "events-api.webull.com"

abbrev pub sandbox_host : Service → String
sandbox_host trading = "api.sandbox.webull.com"
sandbox_host market_data = "api.sandbox.webull.com"
sandbox_host streaming = "data-api.sandbox.webull.com"
sandbox_host events = "events-api.sandbox.webull.com"

-- hosts[e]: every environment has a host for every service.
unfoldable pub hosts : Environment → Option (Service → String)
hosts e =
    if e == production
    then some production_host
    else if e == sandbox
    then some sandbox_host
    else none

abbrev pub is_known {ℓ} : {A : Type ℓ} → Option A → Bool
is_known none = false
is_known (some a) = true

-- Environment.Valid
unfoldable pub is_valid : Environment → Bool
is_valid e = is_known (hosts e)

pub record Config : Type 0 where
  pub app_key : String
  pub app_secret : String
  pub environment : Environment
  pub http_client : Option HttpClient
  pub endpoint_overrides : List (String × String)
  pub user_agent : String
  pub access_token : String

-- Config.validate
unfoldable pub validate : Config → Option Error
validate cfg =
    if cfg.app_key == "" || cfg.app_secret == ""
    then some (sentinel missing_credentials)
    else if is_valid cfg.environment
    then none
    else some (text "webull: Environment must be webull.Sandbox or webull.Production")

-- A map's value for a key; a missing key reads as the empty text, which is no override either.
unfoldable pub override : List (String × String) → String → String
override [] s = ""
override ((k, v) ∷ os) s = if k == s then v else override os s

abbrev pub host_of : Option (Service → String) → Service → Result String
host_of none s = err (text "webull: unknown environment")
host_of (some by_service) s = ok (by_service s)

-- Config.host
unfoldable pub host : Config → Service → Result String
host cfg s =
    if override cfg.endpoint_overrides (service_name s) == ""
    then host_of (hosts cfg.environment) s
    else ok (override cfg.endpoint_overrides (service_name s))

-- requestIDOf
unfoldable pub request_id_of : Headers → String
request_id_of h =
    if get_header "X-Request-Id" h == ""
    then if get_header "X-Request-ID" h == ""
      then get_header "Request-Id" h
      else get_header "X-Request-ID" h
    else get_header "X-Request-Id" h

-- time.Duration(secs) * time.Second, in 64 bits with a sign.
unfoldable pub seconds : ℕ → ℤ
seconds n =
    let product = n * 1000000000 % 2 ^ 64 in
    if ltb product (2 ^ 63) then pos product else negsuc (2 ^ 64 - product - 1)

abbrev positive_or_zero : Option ℤ → ℤ
positive_or_zero (some (pos n)) = pos n
positive_or_zero _ = pos 0

abbrev pub by_number : Option ℤ → Option ℤ → ℤ
by_number (some (pos n)) date = seconds n
by_number _ date = positive_or_zero date

-- retryAfterOf
unfoldable pub retry_after_of : Platform → Headers → ℤ
retry_after_of p h =
    let v = get_header "Retry-After" h in
    if v == "" then pos 0 else by_number (p.atoi v) (p.until_date v)

-- decodeAPIError
unfoldable pub decode_api_error : Platform → Response → ApiError
decode_api_error p resp =
    let payload = p.read_payload resp.body in
    record {
      status_code = resp.status_code;
      code = payload.code;
      message = if payload.message == "" then payload.gw_message else payload.message;
      request_id = request_id_of resp.header;
      retry_after = retry_after_of p resp.header;
      body = resp.body;
      truncated = resp.truncated;
    }

-- UserAgent
abbrev pub default_user_agent : Platform → String
default_user_agent p = "webull-go/0.1.1-dev (" <> p.runtime <> ")"

-- What NewClient resolves and composes. The clients of trading, market data, events and streaming
-- are given by their hosts; all but events share the Doer.
pub record SdkClient : Type 0 where
  pub config : Config
  pub doer : Doer
  pub trading_host : String
  pub market_data_host : String
  pub events_host : String
  pub streaming_host : String
  pub events_access_token : String

abbrev access_headers : String → Option (Net → Result Headers × Net)
access_headers token =
    if token == "" then none else some (λ net. (ok (("x-access-token", token) ∷ []), net))

-- The Doer that NewClient builds.
unfoldable pub new_doer : Platform → Config → Doer
new_doer p cfg = record {
  http_client = new_http_client cfg.http_client;
  sign = sign (record { app_key = cfg.app_key; app_secret = cfg.app_secret; crypto = p.crypto });
  user_agent =
      if cfg.user_agent == ""
      then default_user_agent p
      else cfg.user_agent <> " " <> default_user_agent p;
  decode_error = λ resp. api (decode_api_error p resp);
  retry = default_retry_policy;
  float = p.float;
  authorizer = access_headers cfg.access_token;
}

-- NewClient
unfoldable pub new_client : Platform → Config → Result SdkClient
new_client p cfg = elim (validate cfg) [
  | some e ↦ err e
  | none ↦ host cfg trading >>= λ t. host cfg market_data >>= λ m. host cfg events >>= λ e.
      host cfg streaming >>= λ s. ok (record {
        config = cfg;
        doer = new_doer p cfg;
        trading_host = t;
        market_data_host = m;
        events_host = e;
        streaming_host = s;
        events_access_token = cfg.access_token;
      })
]
