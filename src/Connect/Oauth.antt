-- ===== src/Connect/Oauth.antt =====
-- Authorization and the token endpoint of the Connect API: connect/oauth.go.
use webull.Common.{
  String, Bool, true, false, ◌||◌, Option, none, some, List, [], ◌∷◌, ◌++◌, ◌==◌, if◌then◌else◌,
  codes, is_empty,
}
use webull.Common.Int.{ℤ, beq_ℤ, negsuc}
use webull.Errors.{Error, Result, text, api, ok, err}
use webull.Transport.Url.{Bytes, Values, utf8, encode}
use webull.Transport.Http.{Env, Net, HttpClient, new_http_client}
use webull.Transport.Attempt.{Doer, Request}
use webull.Transport.Doer.{do_request}
use webull.Transport.Retry.{default_retry_policy}
use webull.Signing.{sign}
use webull.Sdk.{Platform, Environment, sandbox, production, decode_api_error, default_user_agent}
use webull.Connect.{Token}
use Prim.Native.String.{◌++◌ as ◌<>◌}

pub record ConnectConfig : Type 0 where
  pub client_id : String
  pub client_secret : String
  pub app_key : String
  pub app_secret : String
  pub environment : Environment
  pub redirect_uri : String
  pub scopes : List String
  pub endpoint : String
  pub http_client : Option HttpClient
  pub user_agent : String

-- oauthHosts[e], with the constants of internal/endpoints.
unfoldable pub oauth_hosts : Environment → Option String
oauth_hosts e =
    if e == production
    then some "us-oauth-open-api.webull.com"
    else if e == sandbox
    then some "oauth-open-api.sandbox.webull.com"
    else none

abbrev is_listed : Option String → Bool
is_listed none = false
is_listed (some h) = true

-- Config.validate
unfoldable pub validate_config : ConnectConfig → Option Error
validate_config c =
    if c.client_id == "" || c.client_secret == ""
    then some (text "connect: ClientID and ClientSecret are required")
    else if c.app_key == "" || c.app_secret == ""
    then some (text "connect: AppKey and AppSecret are required")
    else if c.redirect_uri == ""
    then some (text "connect: RedirectURI is required")
    else if is_listed (oauth_hosts c.environment)
    then none
    else some (text "connect: unknown environment")

-- strings.Join with colons.
abbrev join_colons : List String → String
join_colons [] = ""
join_colons (s ∷ []) = s
join_colons (s ∷ t ∷ ss) = s <> ":" <> join_colons (t ∷ ss)

-- Config.scopeString
unfoldable pub scope_string : ConnectConfig → String
scope_string c =
    if is_empty c.scopes then join_colons ("user" ∷ "trade" ∷ "wr" ∷ []) else join_colons c.scopes

abbrev or_empty : Option String → String
or_empty none = ""
or_empty (some h) = h

-- Config.host
unfoldable pub oauth_host : ConnectConfig → String
oauth_host c = if c.endpoint == "" then or_empty (oauth_hosts c.environment) else c.endpoint

pub record Authorizer : Type 0 where
  pub cfg : ConnectConfig
  pub host : String
  pub doer : Doer

-- The Doer that NewAuthorizer and ClientFromStore build, but for the authorizer.
unfoldable pub oauth_doer : Platform → ConnectConfig → Doer
oauth_doer p c = record {
  http_client = new_http_client c.http_client;
  sign = sign (record { app_key = c.app_key; app_secret = c.app_secret; crypto = p.crypto });
  user_agent =
      if c.user_agent == ""
      then default_user_agent p
      else c.user_agent <> " " <> default_user_agent p;
  decode_error = λ resp. api (decode_api_error p resp);
  retry = default_retry_policy;
  float = p.float;
  authorizer = none;
}

abbrev pub authorizer_of : Platform → ConnectConfig → Option Error → Result Authorizer
authorizer_of p c (some e) = err e
authorizer_of p c none = ok (record { cfg = c; host = oauth_host c; doer = oauth_doer p c })

-- NewAuthorizer
unfoldable pub new_authorizer : Platform → ConnectConfig → Result Authorizer
new_authorizer p c = authorizer_of p c (validate_config c)

-- The parameters of AuthorizationURL.
unfoldable pub authorization_query : Authorizer → String → Values
authorization_query a state =
    ("response_type", "code" ∷ [])
    ∷ ("client_id", a.cfg.client_id ∷ [])
    ∷ ("scope", scope_string a.cfg ∷ [])
    ∷ ("state", state ∷ [])
    ∷ ("redirect_uri", a.cfg.redirect_uri ∷ [])
    ∷ []

-- AuthorizationURL, for a host of letters, digits, points, dashes and a port.
unfoldable pub authorization_url : Authorizer → String → Bytes
authorization_url a state =
    codes "https://"
    ++ (utf8 a.host ++ (codes "/oauth2/auth-codes/get?" ++ encode (authorization_query a state)))

-- The request of Authorizer.token. No request of the flow has a JSON body.
unfoldable pub token_request : Authorizer → Values → Request (Unit {0})
token_request a form = record {
  method = "POST";
  host = a.host;
  path = "/oauth2/tokens/create";
  query = [];
  body = none;
  form = some (
      form
      ++ (("client_id", a.cfg.client_id ∷ []) ∷ ("client_secret", a.cfg.client_secret ∷ []) ∷ []));
}

-- The zero time, in nanoseconds since the epoch.
abbrev pub zero_time : ℤ
zero_time = negsuc 62135596799999999999

-- A response without created_at is stamped with the time at which it came.
abbrev pub stamped : ℤ → Token → Token
stamped now t = if beq_ℤ t.created_at zero_time then record t { created_at = now } else t

-- Do with a decoder gives a token or an error; the second clause is not reached.
abbrev pub stamp : ℤ → Result (Option Token) → Result Token
stamp now (err e) = err e
stamp now (ok none) = err (text "no token")
stamp now (ok (some t)) = ok (stamped now t)

abbrev pub no_json : Unit {0} → Result Bytes
no_json u = ok []

module _ (read_token : Bytes → Result Token) (env : Env) where
  -- Authorizer.token
  unfoldable pub token : Authorizer → Values → ℤ → Net → Result Token × Net
  token a form now net =
      let (r, n) = do_request no_json a.doer env (token_request a form) (some read_token) net in
      (stamp now r, n)

  -- ExchangeCode
  unfoldable pub exchange_code : Authorizer → String → ℤ → Net → Result Token × Net
  exchange_code a code now net =
      token a (("grant_type", "authorization_code" ∷ []) ∷ ("code", code ∷ []) ∷ []) now net

  -- Refresh
  unfoldable pub refresh : Authorizer → String → ℤ → Net → Result Token × Net
  refresh a refresh_token now net =
      token a (("grant_type", "refresh_token" ∷ []) ∷ ("refresh_token", refresh_token ∷ []) ∷ [])
        now net
