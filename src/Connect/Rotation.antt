-- ===== src/Connect/Rotation.antt =====
-- Refresh tokens rotate: what the token source does with one that an exchange has superseded
-- (connect/client.go).
use webull.Common.{
  String, ◌≡◌, refl, ap, ◌∙◌, ◌≢◌, ◌⊎◌, inl, inr, Option, none, some, List, [], ◌∷◌, if◌then◌else◌,
  Bool-cases, All,
}
use webull.Common.Int.{ℤ, ltb_ℤ}
use webull.Errors.{Error, Result, ok, err}
use webull.Connect.{
  Token, refresh_expiry, access_valid, TokenSource, Reply, usable, failure, waits, exchanges,
  join_flight, decide, begin, finish, Call, begins, finishes, is_busy,
}

-- What is seen of a run: a refresh token is sent to the token endpoint, and an exchange of one
-- succeeds.
pub data Note : Type 0 where
  asks spends : String → Note

abbrev note_of : Reply → List Note → List Note
note_of (exchanges r) ns = asks r ∷ ns
note_of _ ns = ns

abbrev spent : Option String → Result Token → List Note → List Note
spent (some r) (ok t) ns = spends r ∷ ns
spent (some r) (err e) ns = ns
spent none answer ns = ns

-- The source behind an exchange that finishes.
abbrev settled_source : Result Token → Option Error → TokenSource → TokenSource
settled_source answer save s = if is_busy s.inflight then (finish answer save s).1 else s

unfoldable pub trace : TokenSource → List Call → List Note
trace s [] = []
trace s (begins load now ∷ cs) = note_of (begin load now s).0 (trace (begin load now s).1 cs)
trace s (finishes answer save ∷ cs) =
    spent s.inflight answer (trace (settled_source answer save s) cs)

abbrev pub issue : Option String → Result Token → List String → List String
issue (some r) (ok t) rs = t.refresh_token ∷ rs
issue (some r) (err e) rs = rs
issue none answer rs = rs

-- The refresh tokens that the exchanges give out.
unfoldable pub issued : TokenSource → List Call → List String
issued s [] = []
issued s (begins load now ∷ cs) = issued (begin load now s).1 cs
issued s (finishes answer save ∷ cs) =
    issue s.inflight answer (issued (settled_source answer save s) cs)

abbrev pub IsDistinct : List String → Type 0
IsDistinct [] = Unit
IsDistinct (x ∷ xs) = All (λ y. x ≢ y) xs × IsDistinct xs

abbrev pub IsUnasked : String → List Note → Type 0
IsUnasked r [] = Unit
IsUnasked r (asks q ∷ ns) = (r ≢ q) × IsUnasked r ns
IsUnasked r (spends q ∷ ns) = IsUnasked r ns

abbrev pub IsNeverReused : List Note → Type 0
IsNeverReused [] = Unit
IsNeverReused (asks q ∷ ns) = IsNeverReused ns
IsNeverReused (spends q ∷ ns) = IsUnasked q ns × IsNeverReused ns

-- The source holds a pair with this refresh token, and exchanges no other.
pub record IsHeld (r : String) (s : TokenSource) : Type 0 where
  pub token : Token
  pub held : s.tok ≡ some token
  pub refresh : token.refresh_token ≡ r
  pub flight : (s.inflight ≡ none) ⊎ (s.inflight ≡ some r)

abbrev with_flight : TokenSource → Option String → TokenSource
with_flight s f = record { tok = s.tok; inflight = f }

still :
    {r : String} {s : TokenSource}
    → IsHeld r s
    → (f : Option String) → (f ≡ none) ⊎ (f ≡ some r)
    → IsHeld r (with_flight s f)
still h f e = record { token = h.token; held = h.held; refresh = h.refresh; flight = e }

abbrev AsksOnly : String → Reply → Type 0
AsksOnly r (exchanges q) = q ≡ r
AsksOnly r _ = Unit

join_flight-IsHeld :
    (r : String) (t : Token) (f : Option String) (s : TokenSource)
    → s.tok ≡ some t
    → t.refresh_token ≡ r
    → s.inflight ≡ f
    → (f ≡ none) ⊎ (f ≡ some r)
    → AsksOnly r (join_flight t f s).0 × IsHeld r (join_flight t f s).1
join_flight-IsHeld r t none s h e q d =
    (e, record { token = t; held = h; refresh = e; flight = inr (ap some e) })
join_flight-IsHeld r t (some x) s h e q d =
    (tt, record { token = t; held = h; refresh = e; flight = rw q d })

begin-IsHeld :
    (load : Result (Option Token)) (now : ℤ) (r : String) (s : TokenSource)
    → IsHeld r s
    → AsksOnly r (begin load now s).0 × IsHeld r (begin load now s).1
unfolding begin decide
begin-IsHeld load now r s h =
    let same : IsHeld r (record s { tok = some h.token }) = record {
      token = h.token;
      held = refl;
      refresh = h.refresh;
      flight = h.flight;
    } in
    rw h.held (elim (Bool-cases (access_valid h.token now)) [
      | inl a ↦ rw a (tt, same)
      | inr a ↦ elim (Bool-cases (ltb_ℤ now (refresh_expiry h.token))) [
        | inl x ↦
            rw (a, x)
              (join_flight-IsHeld r h.token s.inflight (record s { tok = some h.token }) refl
                h.refresh refl h.flight)
        | inr x ↦ rw (a, x) (tt, same)
      ]
    ])

idle-IsHeld :
    (r : String) (s : TokenSource) (e : Error) (save : Option Error)
    → IsHeld r s
    → IsHeld r (finish (err e) save s).1
unfolding finish
idle-IsHeld r s e save h = record {
  token = h.token;
  held = h.held;
  refresh = h.refresh;
  flight = inl refl;
}

fresh-IsHeld :
    (t : Token) (save : Option Error) (s : TokenSource)
    → IsHeld t.refresh_token (finish (ok t) save s).1
unfolding finish
fresh-IsHeld t save s = record { token = t; held = refl; refresh = refl; flight = inl refl }

note_of-IsUnasked :
    (u r : String) (reply : Reply) (ns : List Note)
    → AsksOnly r reply
    → u ≢ r
    → IsUnasked u ns
    → IsUnasked u (note_of reply ns)
note_of-IsUnasked u r (exchanges q) ns a n h = ((λ e. n (e ∙ a)), h)
note_of-IsUnasked u r (usable t) ns a n h = h
note_of-IsUnasked u r (failure e) ns a n h = h
note_of-IsUnasked u r waits ns a n h = h

note_of-IsNeverReused :
    (reply : Reply) (ns : List Note) → IsNeverReused ns → IsNeverReused (note_of reply ns)
note_of-IsNeverReused (exchanges q) ns h = h
note_of-IsNeverReused (usable t) ns h = h
note_of-IsNeverReused (failure e) ns h = h
note_of-IsNeverReused waits ns h = h

trace-IsUnasked :
    (u r : String) (s : TokenSource) (cs : List Call)
    → IsHeld r s
    → u ≢ r
    → All (λ y. u ≢ y) (issued s cs)
    → IsUnasked u (trace s cs)
unfolding trace issued
trace-IsUnasked u r s [] h n a = tt
trace-IsUnasked u r s (begins load now ∷ cs) h n a =
    let (q, k) = begin-IsHeld load now r s h in
    note_of-IsUnasked u r (begin load now s).0 _ q n
      (trace-IsUnasked u r (begin load now s).1 cs k n a)
trace-IsUnasked u r s (finishes (ok t) save ∷ cs) h n a = elim h.flight [
  | inl e ↦
      rw e (trace-IsUnasked u r (with_flight s none) cs (still h none (inl refl)) n (rw e at a))
  | inr e ↦
      let s' = (finish (ok t) save (with_flight s (some r))).1 in
      let (m, b) : (u ≢ t.refresh_token) × All (λ y. u ≢ y) (issued s' cs) = rw e at a in
      rw e (trace-IsUnasked u t.refresh_token s' cs (fresh-IsHeld t save _) m b)
]
trace-IsUnasked u r s (finishes (err x) save ∷ cs) h n a = elim h.flight [
  | inl e ↦
      rw e (trace-IsUnasked u r (with_flight s none) cs (still h none (inl refl)) n (rw e at a))
  | inr e ↦
      let s' = (finish (err x) save (with_flight s (some r))).1 in
      let k = idle-IsHeld r (with_flight s (some r)) x save (still h (some r) (inr refl)) in
      rw e (trace-IsUnasked u r s' cs k n (rw e at a))
]

-- A refresh token is never sent to the token endpoint again once an exchange of it has succeeded, however
-- calls overlap, fail and are retried, and also where saving a new pair failed; provided that the
-- endpoint gives out refresh tokens that are new, as rotation means.
pub trace-IsNeverReused :
    (r : String) (s : TokenSource) (cs : List Call)
    → IsHeld r s
    → IsDistinct (r ∷ issued s cs)
    → IsNeverReused (trace s cs)
unfolding trace issued
trace-IsNeverReused r s [] h d = tt
trace-IsNeverReused r s (begins load now ∷ cs) h d =
    note_of-IsNeverReused (begin load now s).0 _
      (trace-IsNeverReused r (begin load now s).1 cs (begin-IsHeld load now r s h).1 d)
trace-IsNeverReused r s (finishes (ok t) save ∷ cs) h d = elim h.flight [
  | inl e ↦
      rw e (trace-IsNeverReused r (with_flight s none) cs (still h none (inl refl)) (rw e at d))
  | inr e ↦
      let s' = (finish (ok t) save (with_flight s (some r))).1 in
      let f = fresh-IsHeld t save (with_flight s (some r)) in
      let ((m, b), c) : IsDistinct (r ∷ t.refresh_token ∷ issued s' cs) = rw e at d in
      rw e (
        trace-IsUnasked r t.refresh_token s' cs f m b,
        trace-IsNeverReused t.refresh_token s' cs f c,
      )
]
trace-IsNeverReused r s (finishes (err x) save ∷ cs) h d = elim h.flight [
  | inl e ↦
      rw e (trace-IsNeverReused r (with_flight s none) cs (still h none (inl refl)) (rw e at d))
  | inr e ↦
      let k = idle-IsHeld r (with_flight s (some r)) x save (still h (some r) (inr refl)) in
      rw e (trace-IsNeverReused r (finish (err x) save (with_flight s (some r))).1 cs k (rw e at d))
]
