-- ===== src/Connect/Decision.antt =====
-- What a caller of the token source gets, by the clock (connect/client.go).
use webull.Common.{
  ℕ, ◌*◌, ◌≤◌, String, ◌≡◌, refl, ◌≢◌, ◌↔◌, Bool, true, false, Option, none, some, arith, eq_iff,
  Bool-cases, inl, inr,
}
use webull.Common.Int.{ℤ, pos, ltb_ℤ, ◌+ℤ◌, ◌<ℤ◌}
use webull.Errors.{Result, refresh_expired, sentinel}
use webull.Connect.{
  Token, duration_of, access_expiry, refresh_expiry, access_valid, TokenSource, Reply, usable,
  failure, waits, exchanges, join_flight, decide, begin,
}

-- The instant `seconds` after another, in nanoseconds.
abbrev pub after : ℕ → ℤ → ℤ
after seconds t = t +ℤ pos (seconds * 1000000000)

-- The access token of lifetime `a` seconds lasts for a further minute.
abbrev pub IsFresh : Token → ℕ → ℤ → Type 0
IsFresh t a now = (t.access_token ≢ "") × (after 60 now <ℤ after a t.created_at)

-- The refresh token of lifetime `r` seconds has not expired.
abbrev pub IsAlive : Token → ℕ → ℤ → Type 0
IsAlive t r now = now <ℤ after r t.created_at

duration_lem : (n : ℕ) → n ≤ 9223372036 → duration_of (pos n) ≡ pos (n * 1000000000)
unfolding duration_of
duration_lem n h = ground arith

module _ (t : Token) (now : ℤ) where
  access_valid_iff :
      (a : ℕ)
      → t.access_expires_in ≡ pos a
      → a ≤ 9223372036
      → (access_valid t now ≡ true) ↔ IsFresh t a now
  unfolding access_valid access_expiry
  access_valid_iff a e h = rw (e, duration_lem a h) (ground (arith, eq_iff t.access_token ""))

  refresh_iff :
      (r : ℕ)
      → t.refresh_expires_in ≡ pos r
      → r ≤ 9223372036
      → (ltb_ℤ now (refresh_expiry t) ≡ true) ↔ IsAlive t r now
  unfolding refresh_expiry
  refresh_iff r e h = rw (e, duration_lem r h) (ground arith)

-- The reply by the two tests and the call in flight.
abbrev reply : Token → Bool → Bool → Option String → Reply
reply t true r f = usable t
reply t false false f = failure (sentinel refresh_expired)
reply t false true (some x) = waits
reply t false true none = exchanges t.refresh_token

abbrev pub IsDecided : Type 0 → Type 0 → Token → TokenSource → Reply → Type 0
IsDecided Fresh Alive t s got = record {
  returned : (got ≡ usable t) ↔ Fresh;
  refused : (got ≡ failure (sentinel refresh_expired)) ↔ (¬ Fresh × ¬ Alive);
  waited : (got ≡ waits) ↔ (¬ Fresh × Alive × (s.inflight ≢ none));
  exchanged : (got ≡ exchanges t.refresh_token) ↔ (¬ Fresh × Alive × (s.inflight ≡ none));
}

reply-IsDecided :
    (t : Token) (a r : Bool) (s : TokenSource) (f : Option String)
    → s.inflight ≡ f
    → IsDecided (a ≡ true) (r ≡ true) t s (reply t a r f)
reply-IsDecided t true r s f e = record {
  returned = ground arith;
  refused = ground arith;
  waited = ground arith;
  exchanged = ground arith;
}
reply-IsDecided t false false s f e = record {
  returned = ground arith;
  refused = ground arith;
  waited = ground arith;
  exchanged = ground arith;
}
reply-IsDecided t false true s (some x) e = record {
  returned = ground arith;
  refused = ground arith;
  waited = ground arith;
  exchanged = ground arith;
}
reply-IsDecided t false true s none e = record {
  returned = ground arith;
  refused = ground arith;
  waited = ground arith;
  exchanged = ground arith;
}

IsDecided-iff :
    {F A F' A' : Type 0} (f : F ↔ F') (g : A ↔ A') (t : Token) (s : TokenSource) (got : Reply)
    → IsDecided F A t s got
    → IsDecided F' A' t s got
IsDecided-iff f g t s got h = record {
  returned = ((λ e. f.0 (h.returned.0 e)), λ x. h.returned.1 (f.1 x));
  refused = (
    (λ e. let (x, y) = h.refused.0 e in ((λ z. x (f.1 z)), λ z. y (g.1 z))),
    λ (x, y). h.refused.1 ((λ z. x (f.0 z)), λ z. y (g.0 z)),
  );
  waited = (
    (λ e. let (x, y, z) = h.waited.0 e in ((λ w. x (f.1 w)), g.0 y, z)),
    λ (x, y, z). h.waited.1 ((λ w. x (f.0 w)), g.1 y, z),
  );
  exchanged = (
    (λ e. let (x, y, z) = h.exchanged.0 e in ((λ w. x (f.1 w)), g.0 y, z)),
    λ (x, y, z). h.exchanged.1 ((λ w. x (f.0 w)), g.1 y, z),
  );
}

join_flight-reply :
    (t : Token) (f : Option String) (s : TokenSource) → (join_flight t f s).0 ≡ reply t false true f
join_flight-reply t none s = refl
join_flight-reply t (some x) s = refl

begin-reply :
    (load : Result (Option Token)) (now : ℤ) (s : TokenSource) (t : Token)
    → s.tok ≡ some t
    → (begin load now s).0 ≡ reply t (access_valid t now) (ltb_ℤ now (refresh_expiry t)) s.inflight
unfolding begin decide
begin-reply load now s t h = rw h (elim (Bool-cases (access_valid t now)) [
  | inl a ↦ rw a refl
  | inr a ↦ elim (Bool-cases (ltb_ℤ now (refresh_expiry t))) [
    | inl r ↦ rw (a, r) (join_flight-reply t s.inflight (record s { tok = some t }))
    | inr r ↦ rw (a, r) refl
  ]
])

-- Of a source that holds a token, whose lifetimes are `a` and `r` seconds, each at most 9223372036: a call
-- gets that token exactly if it has an access token that lasts for a further minute. Otherwise the call
-- fails as expired exactly if the refresh token has expired; and if it has not, the call waits exactly
-- where an exchange is in flight, and exchanges the refresh token of that token exactly where none is.
pub begin-IsDecided :
    (load : Result (Option Token)) (now : ℤ) (s : TokenSource) (t : Token) (a r : ℕ)
    → s.tok ≡ some t
    → t.access_expires_in ≡ pos a
    → a ≤ 9223372036
    → t.refresh_expires_in ≡ pos r
    → r ≤ 9223372036
    → IsDecided (IsFresh t a now) (IsAlive t r now) t s (begin load now s).0
begin-IsDecided load now s t a r h ea la er lr =
    let valid = access_valid t now in
    let alive = ltb_ℤ now (refresh_expiry t) in
    rw (begin-reply load now s t h) (
      IsDecided-iff (access_valid_iff t now a ea la) (refresh_iff t now r er lr) t s
        (reply t valid alive s.inflight) (reply-IsDecided t valid alive s s.inflight refl))
