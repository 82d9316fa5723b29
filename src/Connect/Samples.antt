-- ===== src/Connect/Samples.antt =====
-- A sample token, and the theorems on the token source at these values.
use webull.Common.{arith, ℕ, ◌+◌, ◌≡◌, refl, inl, Option, none, some, List, [], ◌∷◌, length}
use webull.Common.Int.{ℤ, ◌+ℤ◌, pos}
use webull.Errors.{Result, text, ok, err}
use webull.Transport.Http.{quiet}
use webull.Transport.Samples.{sample_env}
use webull.Sdk.{sandbox}
use webull.Sdk.Samples.{sample_platform}
use webull.Connect.{
  Token, duration_of, access_expiry, refresh_expiry, access_valid, TokenSource, decide, begin,
  finish, Call, begins, finishes, is_busy, run,
}
use webull.Connect.Flight.{bit, finished, run-single_flight}
use webull.Connect.Decision.{IsFresh, IsAlive, IsDecided, begin-IsDecided}
use webull.Connect.Rotation.{trace, issued, IsDistinct, IsNeverReused, IsHeld, trace-IsNeverReused}
use webull.Connect.Oauth.{
  ConnectConfig, oauth_hosts, validate_config, oauth_host, Authorizer, oauth_doer, new_authorizer,
}
use webull.Connect.Session.{memory_store, Session, valid_token}
use webull.Connect.Session.Coherent.{IsCoherent, valid_token-IsCoherent}

-- An access token of half an hour and a refresh token of a day.
abbrev sample_token : Token
sample_token = record {
  access_token = "access";
  refresh_token = "refresh";
  token_type = "Bearer";
  access_expires_in = pos 1800;
  refresh_expires_in = pos 86400;
  created_at = pos 0;
  identity_id = "user";
}

abbrev source : TokenSource
source = record { tok = some sample_token; inflight = none }

-- An hour after the token was made.
abbrev later : ℤ
later = pos 3600000000000

begin-IsDecided_example :
    IsDecided
      (IsFresh sample_token 1800 later)
      (IsAlive sample_token 86400 later)
      sample_token
      source
      (begin (ok none) later source).0
begin-IsDecided_example =
    begin-IsDecided (ok none) later source sample_token 1800 86400 refl refl (omega arith) refl
      (omega arith)

-- Two callers find the token due before the exchange of the first is done.
abbrev overlapping : List Call
overlapping = begins (ok none) later ∷ begins (ok none) later ∷ finishes (ok sample_token) none ∷ []

run-single_flight_example :
    length (run source overlapping).0 + 0
    ≡ finished source overlapping + bit (is_busy (run source overlapping).1.inflight)
run-single_flight_example = run-single_flight source overlapping

abbrev next_token : Token
next_token = record sample_token { refresh_token = "refresh2" }

source-IsHeld : IsHeld "refresh" source
source-IsHeld = record { token = sample_token; held = refl; refresh = refl; flight = inl refl }

-- Two overlapping callers, an exchange that fails, another that succeeds, and a later call.
abbrev eventful : List Call
eventful =
    begins (ok none) later
    ∷ begins (ok none) later
    ∷ finishes (err (text "unavailable")) none
    ∷ begins (ok none) later
    ∷ finishes (ok next_token) (some (text "disk full"))
    ∷ begins (ok none) later
    ∷ []

refresh-IsDistinct : IsDistinct ("refresh" ∷ issued source eventful)
unfolding issued begin decide finish access_valid access_expiry refresh_expiry duration_of ◌+ℤ◌
refresh-IsDistinct = (((λ e. cc), tt), (tt, tt))

trace-IsNeverReused_example : IsNeverReused (trace source eventful)
trace-IsNeverReused_example =
    trace-IsNeverReused "refresh" source eventful source-IsHeld refresh-IsDistinct

abbrev connect_config : ConnectConfig
connect_config = record {
  client_id = "id";
  client_secret = "secret";
  app_key = "key";
  app_secret = "app";
  environment = sandbox;
  redirect_uri = "https://example.com/callback";
  scopes = [];
  endpoint = "";
  http_client = none;
  user_agent = "";
}

abbrev sample_authorizer : Authorizer
sample_authorizer = record {
  cfg = connect_config;
  host = oauth_host connect_config;
  doer = oauth_doer sample_platform connect_config;
}

authorized : new_authorizer sample_platform connect_config ≡ ok sample_authorizer
unfolding new_authorizer validate_config oauth_hosts
authorized = refl

abbrev read_next : List ℕ → Result Token
read_next s = ok next_token

abbrev session : Session (Option Token)
session = record { source = source; stored = some sample_token; net = quiet }

valid_token-IsCoherent_example :
    IsCoherent memory_store read_next sample_env 0
      (valid_token memory_store read_next sample_env sample_authorizer later session)
valid_token-IsCoherent_example =
    valid_token-IsCoherent memory_store read_next sample_env sample_platform connect_config
      sample_authorizer later session authorized refl
