-- ===== src/Connect/Session.antt =====
-- A Connect client: ClientFromStore, Client.Token and tokenSource.bearer of connect/client.go with the
-- store of connect/store.go, one call after the other.
pub mod Coherent
use webull.Common.{Option, none, some, [], ◌∷◌}
use webull.Common.Int.{ℤ}
use webull.Errors.{Error, Result, text, ok, err}
use webull.Transport.Url.{Bytes}
use webull.Transport.Http.{Headers, Env, Net}
use webull.Connect.{Token, TokenSource, Reply, usable, failure, waits, exchanges, begin, finish}
use webull.Connect.Oauth.{Authorizer, refresh}
use Prim.Native.String.{◌++◌ as ◌<>◌}

-- TokenStore, over a type of states: `load` and `save` may fail.
pub record TokenStore (S : Type 0) : Type 0 where
  pub load : S → Result (Option Token)
  pub save : Token → S → Option Error × S

-- MemoryTokenStore
abbrev pub memory_store : TokenStore (Option Token)
memory_store = record { load = λ tok. ok tok; save = λ t tok. (none, some t) }

-- What a client owns: its source, its store and the network.
pub record Session (S : Type 0) : Type 0 where
  pub source : TokenSource
  pub stored : S
  pub net : Net

module _ {S : Type 0} (store : TokenStore S) (read_token : Bytes → Result Token) (env : Env)
    (a : Authorizer) where
  -- The store behind an exchange, with the error of saving.
  abbrev pub keep_pair : Result Token → S → Option Error × S
  keep_pair (err e) st = (none, st)
  keep_pair (ok t) st = store.save t st

  -- valid_token from the exchange on.
  unfoldable pub after_exchange : Result Token → TokenSource → S → Net → Result Token × Session S
  after_exchange answer src st net =
      let (e, st') = keep_pair answer st in
      let (r, src') = finish answer e src in (r, record { source = src'; stored = st'; net = net })

  -- What a call of tokenSource.valid comes to if no other overlaps it; it then never waits.
  unfoldable pub conclude : Reply → ℤ → TokenSource → S → Net → Result Token × Session S
  conclude (usable t) now src st net = (ok t, record { source = src; stored = st; net = net })
  conclude (failure e) now src st net = (err e, record { source = src; stored = st; net = net })
  conclude waits now src st net =
      (err (text "waits"), record { source = src; stored = st; net = net })
  conclude (exchanges r) now src st net =
      let (answer, n) = refresh read_token env a r now net in after_exchange answer src st n

  -- Client.Token
  unfoldable pub valid_token : ℤ → Session S → Result Token × Session S
  valid_token now s =
      let (reply, src) = begin (store.load s.stored) now s.source in
      conclude reply now src s.stored s.net

  abbrev pub bearer_header : Result Token → Result Headers
  bearer_header (ok t) = ok (("Authorization", "Bearer " <> t.access_token) ∷ [])
  bearer_header (err e) = err e

  -- bearer
  unfoldable pub bearer : ℤ → Session S → Result Headers × Session S
  bearer now s = let (r, s') = valid_token now s in (bearer_header r, s')
