-- ===== src/Events/Closing.antt =====
-- Close beside a Recv that reconnects: Stream.Close, dropConn and the end of connect of
-- events/client.go. The two goroutines share the connection, which a lock guards; each step is one
-- locked section, or one thing done outside of it.
pub mod Leaks
pub mod Samples
use webull.Common.{
  ℕ, ◌+◌, ◌≡◌, not, Bool, true, false, Option, none, some, List, [], ◌∷◌, beq, if◌then◌else◌,
}

-- `conn` is s.conn, and `dialing` the connection that connect has made and not yet published; `canceled`
-- is s.ctx.Err() != nil, and `closed` says that a call of Close has returned. `opened` holds the
-- connections that are open, by numbers that are given out in turn.
pub record Shared : Type 0 where
  pub canceled : Bool
  pub closed : Bool
  pub conn : Option ℕ
  pub dialing : Option ℕ
  pub opened : List ℕ
  pub fresh : ℕ

-- Subscribe before its connect.
abbrev pub subscribing : Shared
subscribing = record {
  canceled = false;
  closed = false;
  conn = none;
  dialing = none;
  opened = [];
  fresh = 0;
}

-- conn.Close()
abbrev pub shut : ℕ → List ℕ → List ℕ
shut i [] = []
shut i (j ∷ js) = let rest = shut i js in if beq j i then rest else j ∷ rest

abbrev pub shut_held : Option ℕ → List ℕ → List ℕ
shut_held none js = js
shut_held (some i) js = shut i js

-- The locked section of dropConn and of Close.
unfoldable pub drop_conn : Shared → Shared
drop_conn s = record s { conn = none; opened = shut_held s.conn s.opened }

-- connect: grpc.NewClient
unfoldable pub dial : Shared → Shared
dial s = record s { dialing = some s.fresh; opened = s.fresh ∷ s.opened; fresh = s.fresh + 1 }

-- connect: a return before the lock.
unfoldable pub abandon : Shared → Shared
abandon s = record s { dialing = none; opened = shut_held s.dialing s.opened }

-- connect: the locked section, which looks for a Close in the meantime.
unfoldable pub publish : Shared → Shared
unfolding abandon
publish s = if s.canceled then abandon s else record s { conn = s.dialing; dialing = none }

-- s.cancel(), or the end of the caller's context.
unfoldable pub cancel : Shared → Shared
cancel s = record s { canceled = true }

-- The rest of Close.
unfoldable pub close : Shared → Shared
unfolding drop_conn
close s = record (drop_conn s) { closed = true }

-- Recv and Subscribe drop the connection before they dial, and dial one at a time; Close cancels first.
pub data Step : Shared → Shared → Type 0 where
  cancels : (s : Shared) → Step s (cancel s)
  closes : (s : Shared) → s.canceled ≡ true → Step s (close s)
  drops : (s : Shared) → s.dialing ≡ none → Step s (drop_conn s)
  dials : (s : Shared) → s.dialing ≡ none → s.conn ≡ none → Step s (dial s)
  abandons : (s : Shared) (i : ℕ) → s.dialing ≡ some i → Step s (abandon s)
  publishes : (s : Shared) (i : ℕ) → s.dialing ≡ some i → Step s (publish s)

pub data Reach (s : Shared) : Shared → Type 0 where
  here : Reach s s
  next : {t u : Shared} → Reach s t → Step t u → Reach s u
