-- ===== src/Sdk/Construction.antt =====
-- What NewClient accepts, and where the client that it returns sends (client.go, config.go,
-- environment.go).
use webull.Common.{
  String, ◌≡◌, refl, sym, ◌∙◌, ◌≢◌, ◌⊎◌, inl, inr, true, false, Option, none, some, List, [], ◌∷◌,
  map, arith, ◌==◌, eq_iff, Bool-cases, All, contains,
}
use webull.Errors.{Error, Result, ◌>>=◌, ok_inj, redirect_not_allowed, sentinel, ok, err}
use webull.Transport.Http.{HttpClient, new_http_client}
use webull.Sdk.{
  Platform, Environment, sandbox, production, Service, production_host, sandbox_host, hosts,
  is_valid, Config, validate, override, host, SdkClient, new_doer, new_client, trading, market_data,
  streaming, events,
}

-- The credentials are set and the environment is one of the two.
pub record IsConfigured (cfg : Config) : Type 0 where
  pub key : cfg.app_key ≢ ""
  pub secret : cfg.app_secret ≢ ""
  pub environment : (cfg.environment ≡ production) ⊎ (cfg.environment ≡ sandbox)

unknown_environment :
    (e : Environment) → (e == production) ≡ false → (e == sandbox) ≡ false → hosts e ≡ none
unfolding hosts
unknown_environment e p s = rw (p, s) refl

valid_environment : (e : Environment) → is_valid e ≡ true → (e ≡ production) ⊎ (e ≡ sandbox)
unfolding is_valid
valid_environment e h = elim (Bool-cases (e == production)) [
  | inl p ↦ inl ((eq_iff e production).0 p)
  | inr p ↦ elim (Bool-cases (e == sandbox)) [
    | inl s ↦ inr ((eq_iff e sandbox).0 s)
    | inr s ↦ cc (rw (unknown_environment e p s) at h)
  ]
]

validate-IsConfigured : (cfg : Config) → validate cfg ≡ none → IsConfigured cfg
unfolding validate
validate-IsConfigured cfg h = record {
  key = ground (arith, eq_iff cfg.app_key "");
  secret = ground (arith, eq_iff cfg.app_secret "");
  environment = valid_environment cfg.environment (ground arith);
}

-- What the parts of a client are.
pub record IsClientOf (p : Platform) (cfg : Config) (c : SdkClient) : Type 0 where
  pub config : c.config ≡ cfg
  pub doer : c.doer ≡ new_doer p cfg
  pub trading_host : host cfg trading ≡ ok c.trading_host
  pub market_data_host : host cfg market_data ≡ ok c.market_data_host
  pub events_host : host cfg events ≡ ok c.events_host
  pub streaming_host : host cfg streaming ≡ ok c.streaming_host
  pub events_access_token : c.events_access_token ≡ cfg.access_token

refuses_redirects :
    (base : Option HttpClient)
    → (new_http_client base).check_redirect ≡ some (sentinel redirect_not_allowed)
unfolding new_http_client
refuses_redirects none = refl
refuses_redirects (some c) = refl

module _ (p : Platform) (cfg : Config) (c : SdkClient) where
  abbrev assemble : Result String → Result String → Result String → Result String → Result SdkClient
  assemble t m e s = t >>= λ t'. m >>= λ m'. e >>= λ e'. s >>= λ s'. ok (record {
    config = cfg;
    doer = new_doer p cfg;
    trading_host = t';
    market_data_host = m';
    events_host = e';
    streaming_host = s';
    events_access_token = cfg.access_token;
  })

  assembled :
      (t m e s : Result String)
      → host cfg trading ≡ t
      → host cfg market_data ≡ m
      → host cfg events ≡ e
      → host cfg streaming ≡ s
      → assemble t m e s ≡ ok c
      → IsClientOf p cfg c
  assembled (err x) m e s ht hm he hs h = cc
  assembled (ok t) (err x) e s ht hm he hs h = cc
  assembled (ok t) (ok m) (err x) s ht hm he hs h = cc
  assembled (ok t) (ok m) (ok e) (err x) ht hm he hs h = cc
  assembled (ok t) (ok m) (ok e) (ok s) ht hm he hs h =
      let k = ok_inj h in
      rw (sym k) (record {
        config = refl;
        doer = refl;
        trading_host = ht;
        market_data_host = hm;
        events_host = he;
        streaming_host = hs;
        events_access_token = refl;
      })

  -- A client is made only of a configuration with both credentials and one of the two environments, and
  -- its parts are those that the configuration calls for: the hosts, the Doer, the access token of the
  -- event stream.
  pub new_client-IsClientOf : new_client p cfg ≡ ok c → IsConfigured cfg × IsClientOf p cfg c
  unfolding new_client
  new_client-IsClientOf h = checked (validate cfg) refl h
    where
      checked :
          (v : Option Error)
          → validate cfg ≡ v
          → (elim v [
            | some e ↦ err e
            | none ↦
                assemble
                  (host cfg trading)
                  (host cfg market_data)
                  (host cfg events)
                  (host cfg streaming)
          ])
            ≡ ok c
          → IsConfigured cfg × IsClientOf p cfg c
      checked (some e) v k = cc
      checked none v k = (validate-IsConfigured cfg v, assembled _ _ _ _ refl refl refl refl k)

  -- The four hosts of a client, and whether it follows redirects.
  abbrev pub hosts_of : List String
  hosts_of = c.trading_host ∷ c.market_data_host ∷ c.events_host ∷ c.streaming_host ∷ []

  sandbox_host-eq :
      (s : Service)
      → cfg.environment ≡ sandbox
      → cfg.endpoint_overrides ≡ []
      → host cfg s ≡ ok (sandbox_host s)
  unfolding host hosts override
  sandbox_host-eq s e o = rw (o, e) refl

  -- Without overrides, a client for the sandbox has the sandbox's hosts, and none of production's; its
  -- HTTP client refuses every redirect, which could lead signed requests elsewhere.
  pub sandbox_isolated :
      new_client p cfg ≡ ok c
      → cfg.environment ≡ sandbox
      → cfg.endpoint_overrides ≡ []
      → (hosts_of
          ≡ "api.sandbox.webull.com" ∷ "api.sandbox.webull.com" ∷ "events-api.sandbox.webull.com"
            ∷ "data-api.sandbox.webull.com" ∷ [])
        × All
            (λ h. contains (map production_host (trading ∷ streaming ∷ events ∷ [])) h ≡ false)
            hosts_of
        × (c.doer.http_client.check_redirect ≡ some (sentinel redirect_not_allowed))
  unfolding new_doer
  sandbox_isolated h e o =
      let k : IsClientOf p cfg c = (new_client-IsClientOf h).1 in
      let is : (s : Service) (x : String) → host cfg s ≡ ok x → x ≡ sandbox_host s =
        λ s x q. ok_inj (sym q ∙ sandbox_host-eq s e o) in
      rw
        (
          is trading c.trading_host k.trading_host,
          is market_data c.market_data_host k.market_data_host,
          is events c.events_host k.events_host,
          is streaming c.streaming_host k.streaming_host,
          k.doer,
        )
        (refl, (refl, (refl, (refl, (refl, tt)))), refuses_redirects cfg.http_client)
