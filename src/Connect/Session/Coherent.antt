-- ===== src/Connect/Session/Coherent.antt =====
-- What a call of Client.Token leaves behind (connect/client.go, connect/oauth.go).
use webull.Common.{
  ℕ, ◌+◌, ◌≤◌, String, ◌≡◌, refl, inl, inr, Option, none, some, [], ◌∷◌, arith, Bool-cases,
}
use webull.Common.Int.{ℤ, ltb_ℤ}
use webull.Errors.{Error, Result, ok, err}
use webull.Transport.Url.{Bytes}
use webull.Transport.Http.{Env, Net, new_http_client}
use webull.Transport.Attempt.{authorize_by, authorize}
use webull.Transport.Doer.Safety.{IsGuarded, sent_count, do_request-sent_once}
use webull.Sdk.{Platform}
use webull.Connect.{
  Token, refresh_expiry, access_valid, TokenSource, Reply, usable, failure, waits, exchanges,
  loaded, decide, begin, finish,
}
use webull.Transport.Method.{is_idempotent}
use webull.Connect.Oauth.{
  ConnectConfig, validate_config, oauth_host, Authorizer, oauth_doer, authorizer_of, new_authorizer,
  token_request, no_json, token, refresh,
}
use webull.Connect.Session.{TokenStore, Session, after_exchange, conclude, valid_token}

abbrev AfterBegin : Reply → TokenSource → Type 0
AfterBegin (usable t) src = (src.tok ≡ some t) × (src.inflight ≡ none)
AfterBegin (failure e) src = src.inflight ≡ none
AfterBegin waits src = ⊥
AfterBegin (exchanges r) src = Unit

decide-idle :
    (now : ℤ) (r : Result (Option Token)) (s : TokenSource)
    → s.inflight ≡ none
    → AfterBegin (decide now r s).0 (decide now r s).1
unfolding decide
decide-idle now (err e) s h = h
decide-idle now (ok none) s h = h
decide-idle now (ok (some t)) s h = elim (Bool-cases (access_valid t now)) [
  | inl a ↦ rw a (refl, h)
  | inr a ↦ elim (Bool-cases (ltb_ℤ now (refresh_expiry t))) [
    | inl r ↦ rw (a, r, h) tt
    | inr r ↦ rw (a, r) h
  ]
]

authorizer_of-plain :
    (p : Platform) (c : ConnectConfig) (e : Option Error) (a : Authorizer)
    → authorizer_of p c e ≡ ok a
    → a ≡ record { cfg = c; host = oauth_host c; doer = oauth_doer p c }
authorizer_of-plain p c none a h = cc
authorizer_of-plain p c (some e) a h = absurd (cc)

module _ {S : Type 0} (store : TokenStore S) (read_token : Bytes → Result Token) (env : Env) where
  abbrev Held : Result Token → Session S → Type 0
  Held (ok t) s = s.source.tok ≡ some t
  Held (err e) s = Unit

  abbrev pub IsCoherent : ℕ → Result Token × Session S → Type 0
  IsCoherent n (r, s) = (sent_count s.net ≤ n + 1) × (s.source.inflight ≡ none) × Held r s

  after_exchange-IsCoherent :
      (a : Authorizer) (answer : Result Token) (src : TokenSource) (st : S) (net : Net) (n : ℕ)
      → sent_count net ≤ n + 1
      → IsCoherent n (after_exchange store read_token env a answer src st net)
  unfolding after_exchange finish
  after_exchange-IsCoherent a (err e) src st net n h = (h, refl, tt)
  after_exchange-IsCoherent a (ok t) src st net n h =
      (h, refl, saved_held (store.save t st).0 (store.save t st).1)
    where
      saved_held :
          (e : Option Error) (st' : S)
          → Held
              (finish (ok t) e src).0
              (record { source = (finish (ok t) e src).1; stored = st'; net = net })
      saved_held none st' = refl
      saved_held (some e) st' = tt

  refresh-sent_once :
      (a : Authorizer) (r : String) (now : ℤ) (net : Net)
      → a.doer.authorizer ≡ none
      → IsGuarded a.doer
      → sent_count (refresh read_token env a r now net).1 ≤ sent_count net + 1
  unfolding refresh token authorize authorize_by is_idempotent token_request
  refresh-sent_once a r now net h g =
      let same : (authorize a.doer net).1 ≡ net = rw h refl in
      let form = ("grant_type", "refresh_token" ∷ []) ∷ ("refresh_token", r ∷ []) ∷ [] in
      let sent =
        do_request-sent_once no_json a.doer env (token_request a form) (some read_token) net g in
      rw same at (sent (rw same (omega arith)) refl)

  conclude-IsCoherent :
      (a : Authorizer) (reply : Reply) (now : ℤ) (src : TokenSource) (st : S) (net : Net)
      → a.doer.authorizer ≡ none
      → IsGuarded a.doer
      → AfterBegin reply src
      → IsCoherent (sent_count net) (conclude store read_token env a reply now src st net)
  unfolding conclude
  conclude-IsCoherent a (usable t) now src st net h g b = (omega arith, b.1, b.0)
  conclude-IsCoherent a (failure e) now src st net h g b = (omega arith, b, tt)
  conclude-IsCoherent a waits now src st net h g b = elim b [ ]
  conclude-IsCoherent a (exchanges r) now src st net h g b =
      after_exchange-IsCoherent a (refresh read_token env a r now net).0 src st _ (sent_count net)
        (refresh-sent_once a r now net h g)

  -- A call of Token that no other overlaps sends at most one request, to whatever end it comes and
  -- though the Doer retries; it leaves no exchange in flight; and a token that it returns is the one that
  -- the client holds from then on.
  pub valid_token-IsCoherent :
      (p : Platform) (c : ConnectConfig) (a : Authorizer) (now : ℤ) (s : Session S)
      → new_authorizer p c ≡ ok a
      → s.source.inflight ≡ none
      → IsCoherent (sent_count s.net) (valid_token store read_token env a now s)
  unfolding valid_token begin new_authorizer oauth_doer
  valid_token-IsCoherent p c a now s h idle =
      let e : a.doer.authorizer ≡ none =
        rw (authorizer_of-plain p c (validate_config c) a h) refl in
      let g : a.doer.http_client ≡ new_http_client c.http_client =
        rw (authorizer_of-plain p c (validate_config c) a h) refl in
      let load = store.load s.stored in
      conclude-IsCoherent a (begin load now s.source).0 now (begin load now s.source).1 s.stored
        s.net e (c.http_client, g) (decide-idle now (loaded s.source.tok load) s.source idle)
