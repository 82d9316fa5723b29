-- ===== src/Connect/Flight.antt =====
-- When the token source exchanges a refresh token (connect/client.go).
use webull.Common.{
  ℕ, ◌+◌, String, ◌≡◌, refl, ap, inl, inr, Bool, true, false, Option, none, some, List, [], ◌∷◌,
  arith, if◌then◌else◌, Bool-cases, length,
}
use webull.Common.Int.{ℤ, ltb_ℤ}
use webull.Errors.{Error, Result, ok, err}
use webull.Connect.{
  Token, refresh_expiry, access_valid, TokenSource, loaded, join_flight, decide, begin, finish,
  Call, begins, finishes, is_busy, logged, run,
}

abbrev pub bit : Bool → ℕ
bit false = 0
bit true = 1

-- How many exchanges finish in the course of the calls.
pub finished : TokenSource → List Call → ℕ
finished s [] = 0
finished s (begins load now ∷ cs) = finished (begin load now s).1 cs
finished s (finishes answer save ∷ cs) =
    bit (is_busy s.inflight)
    + finished (if is_busy s.inflight then (finish answer save s).1 else s) cs

join_flight-balance :
    (t : Token) (f : Option String) (s : TokenSource) (rs : List String)
    → s.inflight ≡ f
    → length (logged (join_flight t f s).0 rs) + bit (is_busy f)
      ≡ length rs + bit (is_busy (join_flight t f s).1.inflight)
join_flight-balance t none s rs e = omega arith
join_flight-balance t (some r) s rs e = rw e refl

decide-balance :
    (now : ℤ) (r : Result (Option Token)) (s : TokenSource) (rs : List String)
    → length (logged (decide now r s).0 rs) + bit (is_busy s.inflight)
      ≡ length rs + bit (is_busy (decide now r s).1.inflight)
unfolding decide
decide-balance now (err e) s rs = refl
decide-balance now (ok none) s rs = refl
decide-balance now (ok (some t)) s rs = elim (Bool-cases (access_valid t now)) [
  | inl a ↦ rw a refl
  | inr a ↦ elim (Bool-cases (ltb_ℤ now (refresh_expiry t))) [
    | inl r ↦ rw (a, r) (join_flight-balance t s.inflight (record s { tok = some t }) rs refl)
    | inr r ↦ rw (a, r) refl
  ]
]

finish-idle :
    (answer : Result Token) (save : Option Error) (s : TokenSource)
    → is_busy (if is_busy s.inflight then (finish answer save s).1 else s).inflight ≡ false
unfolding finish
finish-idle (ok t) save s = ground arith
finish-idle (err e) save s = ground arith

-- Whatever calls overlap, the exchanges made so far are those that have finished and at most the one in
-- flight: counting an exchange that was in flight at the start, they are the finished ones and the
-- one in flight at the end.
pub run-single_flight :
    (s : TokenSource) (cs : List Call)
    → length (run s cs).0 + bit (is_busy s.inflight)
      ≡ finished s cs + bit (is_busy (run s cs).1.inflight)
unfolding run finished begin
run-single_flight s [] = refl
run-single_flight s (begins load now ∷ cs) = omega (
  arith,
  decide-balance now (loaded s.tok load) s (run (begin load now s).1 cs).0,
  run-single_flight (begin load now s).1 cs,
)
run-single_flight s (finishes answer save ∷ cs) =
    let s' = if is_busy s.inflight then (finish answer save s).1 else s in
    let idle : bit (is_busy s'.inflight) ≡ 0 = ap bit (finish-idle answer save s) in
    omega (arith, idle, run-single_flight s' cs)
