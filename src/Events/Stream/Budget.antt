-- ===== src/Events/Stream/Budget.antt =====
-- How many times Recv reconnects (events/client.go, SubscribeRequest.MaxReconnectAttempts).
use webull.Common.{
  ◌↔◌, leb, Bool-cases, ℕ, zero, suc, ◌+◌, ◌*◌, ◌≤◌, ◌<◌, ◌≡◌, refl, ◌∙◌, inl, inr, true, false,
  none, some, List, [], ◌∷◌, arith, length, All,
}
use webull.Common.Int.{ℤ, pos}
use webull.Events.{EventCodec, StreamError, retryable, is_terminal}
use webull.Events.Stream.{
  Input, Phase, State, Outcome, ended, connect, gave_up, start_reconnect, after_retry, on_break,
  step, run, recv, live, receiving, pausing, retrying, blocked, returned,
}

-- The surroundings fail in a way that is worth another attempt, and the context goes on.
abbrev pub IsOutage : Input → Type 0
IsOutage i =
    ((e : StreamError) × (i.response ≡ inr e) × (retryable e ≡ true))
    × (i.closed ≡ none)
    × (i.pause ≡ none)
    × ((e : StreamError) × (connect i.dial ≡ some e) × (is_terminal e ≡ false))

module _ {D T : Type 0} (codec : EventCodec D T) where
  run_goes_on :
      (budget : ℤ) (s s' : State) (i : Input) (is : List Input)
      → step codec budget s i ≡ inl s'
      → (run codec budget s (i ∷ is)).1 ≡ (run codec budget s' is).1
  unfolding run
  run_goes_on budget s s' i is e = rw e refl

  run_returns :
      (budget : ℤ) (s : State) (o : Outcome D T) (i : Input) (is : List Input)
      → step codec budget s i ≡ inr o
      → (run codec budget s (i ∷ is)).1 ≡ returned o
  unfolding run
  run_returns budget s o i is e = rw e refl

  -- The three steps of an outage.
  outage-break :
      (budget : ℤ) (f n : ℕ) (i : Input)
      → IsOutage i
      → step codec budget (record { phase = receiving; failures = f; opened = n }) i
        ≡ start_reconnect codec budget (record { phase = receiving; failures = f; opened = n })
  unfolding step on_break
  outage-break budget f n i ((e, r, t), c, p, d) = rw (r, c, t) refl

  outage-pause :
      (budget : ℤ) (f n : ℕ) (i : Input)
      → IsOutage i
      → step codec budget (record { phase = pausing; failures = f; opened = n }) i
        ≡ inl (record { phase = retrying; failures = f; opened = n })
  unfolding step
  outage-pause budget f n i (r, c, p, d) = rw p refl

  outage-retry :
      (budget : ℤ) (f n : ℕ) (i : Input)
      → IsOutage i
      → step codec budget (record { phase = retrying; failures = f; opened = n }) i
        ≡ start_reconnect codec budget (record { phase = retrying; failures = f; opened = n })
  unfolding step after_retry
  outage-retry budget f n i (r, c, p, (e, d, t)) = rw (d, t) refl

  start_spent :
      (n : ℕ) (p : Phase) (o : ℕ)
      → 1 ≤ n
      → start_reconnect codec (pos n) (record { phase = p; failures = n; opened = o })
        ≡ inr (ended gave_up)
  unfolding start_reconnect
  start_spent n p o h = ground arith

  start_within :
      (n f : ℕ) (p : Phase) (o : ℕ)
      → f < n
      → start_reconnect codec (pos n) (record { phase = p; failures = f; opened = o })
        ≡ inl (record { phase = pausing; failures = f + 1; opened = 0 })
  unfolding start_reconnect
  start_within n f p o h = ground arith

  outage_from_pause :
      (n k f : ℕ) (is : List Input)
      → f + k ≡ n
      → 1 ≤ n
      → All IsOutage is
      → 2 * k + 2 ≤ length is
      → (run codec (pos n) (record { phase = pausing; failures = f; opened = 0 }) is).1
        ≡ returned (ended gave_up)
  outage_from_pause n k f [] e h a l = absurd (omega arith)
  outage_from_pause n k f (i ∷ []) e h a l = absurd (omega arith)
  outage_from_pause n zero f (i ∷ j ∷ is) e h a l =
      let m : f ≡ n = omega (arith, e) in
      run_goes_on (pos n) _ _ i (j ∷ is) (outage-pause (pos n) f 0 i a.0)
      ∙ run_returns (pos n) _ (ended gave_up) j is
          (outage-retry (pos n) f 0 j a.1.0 ∙ rw m (start_spent n retrying 0 h))
  outage_from_pause n (suc k) f (i ∷ j ∷ is) e h a l =
      run_goes_on (pos n) _ _ i (j ∷ is) (outage-pause (pos n) f 0 i a.0)
      ∙ run_goes_on (pos n) _ _ j is
          (outage-retry (pos n) f 0 j a.1.0 ∙ start_within n f retrying 0 (omega (arith, e)))
      ∙ outage_from_pause n k (f + 1) is (omega (arith, e)) h a.1.1 (omega arith)

  -- With fewer inputs it is still at it.
  outage_goes_on :
      (n k f : ℕ) (is : List Input)
      → f + k ≡ n
      → All IsOutage is
      → length is ≤ 2 * k + 1
      → (s : State) × ((run codec
            (pos n)
            (record { phase = pausing; failures = f; opened = 0 })
            is).1
          ≡ blocked s)
  unfolding run
  outage_goes_on n k f [] e a l = (record { phase = pausing; failures = f; opened = 0 }, refl)
  outage_goes_on n k f (i ∷ []) e a l = (
    record { phase = retrying; failures = f; opened = 0 },
    run_goes_on (pos n) _ _ i [] (outage-pause (pos n) f 0 i a.0),
  )
  outage_goes_on n zero f (i ∷ j ∷ is) e a l = absurd (omega arith)
  outage_goes_on n (suc k) f (i ∷ j ∷ is) e a l =
      let (s, h) = outage_goes_on n k (f + 1) is (omega (arith, e)) a.1.1 (omega arith) in
      (
        s,
        run_goes_on (pos n) _ _ i (j ∷ is) (outage-pause (pos n) f 0 i a.0)
            ∙ run_goes_on (pos n) _ _ j is
                (outage-retry (pos n) f 0 j a.1.0 ∙ start_within n f retrying 0 (omega (arith, e)))
            ∙ h,
      )

  outage_from_break :
      (n : ℕ) (i : Input) (is : List Input)
      → 1 ≤ n
      → IsOutage i
      → (run codec (pos n) live (i ∷ is)).1
        ≡ (run codec (pos n) (record { phase = pausing; failures = 1; opened = 0 }) is).1
  outage_from_break n i is h a =
      run_goes_on (pos n) _ _ i is
        (outage-break (pos n) 0 1 i a ∙ start_within n 0 receiving 1 (omega arith))

  -- What is left of the budget of `n` after the first attempt.
  left_after : (n : ℕ) → 1 ≤ n → (k : ℕ) × (1 + k ≡ n)
  left_after zero h = absurd (omega arith)
  left_after (suc k) h = (k, omega arith)

  recv_outage :
      (n : ℕ) (is : List Input)
      → 1 ≤ n
      → All IsOutage is
      → (length is ≤ 2 * n → (s : State) × ((recv codec (pos n) is).1 ≡ blocked s))
        × (2 * n + 1 ≤ length is → (recv codec (pos n) is).1 ≡ returned (ended gave_up))
  unfolding recv run
  recv_outage n [] h a = ((λ l. (live, refl)), (λ l. absurd (omega arith)))
  recv_outage n (i ∷ is) h a =
      let b = outage_from_break n i is h a.0 in
      let (k, e) = left_after n h in
      (
        (λ l. let (s, g) = outage_goes_on n k 1 is e a.1 (omega (arith, e, l)) in (s, b ∙ g)),
        (λ l. b ∙ outage_from_pause n k 1 is e h a.1 (omega (arith, e, l))),
      )

  -- Recv terminates where the number of reconnects is bounded: in an outage that does not end, on a stream
  -- with a positive MaxReconnectAttempts of n, it has given up exactly once it has had its break and n
  -- pauses each with an attempt, which are 2 n + 1 inputs, and not before.
  pub recv_gives_up :
      (n : ℕ) (is : List Input)
      → 1 ≤ n
      → All IsOutage is
      → ((recv codec (pos n) is).1 ≡ returned (ended gave_up)) ↔ (2 * n + 1 ≤ length is)
  recv_gives_up n is h a =
      let (waits, ends) = recv_outage n is h a in
      (
        (λ r. elim (Bool-cases (leb (length is) (2 * n))) [
          | inl e ↦ let (s, g) = waits (ground (arith, e)) in absurd (cc)
          | inr e ↦ ground (arith, e)
        ]),
        ends,
      )
