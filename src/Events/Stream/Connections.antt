-- ===== src/Events/Stream/Connections.antt =====
-- What holds of a stream between the steps of Recv (events/client.go).
use webull.Common.{
  ℕ, ◌+◌, ◌≤◌, ◌≡◌, refl, ◌↔◌, ◌⊎◌, inl, inr, Bool, true, false, not, Option, none, some, List, [],
  ◌∷◌, arith, beq, if◌then◌else◌, Bool-cases,
}
use webull.Common.Int.{ℤ, ◌≤ℤ◌, ◌<ℤ◌, pos, negsuc}
use webull.Errors.{Error}
use webull.Events.{
  subscribe_expired, StreamResponse, EventCodec, StreamError, wrap_status, control_error, retryable,
  is_terminal,
}
use webull.Events.Stream.{
  Input, Phase, State, Heard, ended, connect, is_spent, live, Next, start_reconnect, after_retry,
  after_renewal, is_heartbeat, after_control, on_response, on_break, on_receive, on_pause, step_in,
  step, Report, carry, run, recv, receiving, pausing, retrying, renewing, blocked, returned,
}

module _ {D T : Type 0} (codec : EventCodec D T) (budget : ℤ) where
  abbrev expected : Phase → ℕ
  expected receiving = 1
  expected _ = 0

  abbrev IsKept : State → Type 0
  IsKept s = (s.opened ≡ expected s.phase) × (is_spent budget s.failures ≡ false)

  abbrev IsKeptNext : Next codec budget → Type 0
  IsKeptNext (inl s) = IsKept s
  IsKeptNext (inr o) = Unit

  start_reconnect-IsKept : (s : State) → IsKeptNext (start_reconnect codec budget s)
  unfolding start_reconnect
  start_reconnect-IsKept s = elim (Bool-cases (is_spent budget (s.failures + 1))) [
    | inl e ↦ rw e tt
    | inr e ↦ rw e (refl, e)
  ]

  ended-IsKept :
      (b : Bool) (e : StreamError) (n : Next codec budget)
      → IsKeptNext n
      → IsKeptNext (if b then inr (ended e) else n)
  ended-IsKept true e n k = tt
  ended-IsKept false e n k = k

  fresh_budget : is_spent budget 0 ≡ false
  fresh_budget = go budget
    where
      go : (b : ℤ) → is_spent b 0 ≡ false
      go (pos n) = ground arith
      go (negsuc n) = ground arith

  on_receive-IsKept :
      (s : State) (c : Option Error) (x : StreamResponse ⊎ StreamError)
      → s.opened ≡ 1
      → s.phase ≡ receiving
      → is_spent budget s.failures ≡ false
      → IsKeptNext (on_receive codec budget s c x)
  unfolding on_response after_control on_break
  on_receive-IsKept s c (inl r) o p b = controlled (control_error r)
    where
      controlled : (e : Option StreamError) → IsKeptNext (after_control codec budget s r e)
      controlled (some e) = tt
      controlled none = elim (Bool-cases (is_heartbeat codec budget r)) [
        | inl h ↦ rw (h, p) (o, b)
        | inr h ↦ elim (Bool-cases (beq r.event_type subscribe_expired)) [
          | inl x ↦ rw (h, x) (refl, b)
          | inr x ↦ rw (h, x) tt
        ]
      ]
  on_receive-IsKept s (some c) (inr e) o p b = tt
  on_receive-IsKept s none (inr e) o p b =
      ended-IsKept (not (retryable e)) (wrap_status "events: stream" e)
        (start_reconnect codec budget s) (start_reconnect-IsKept s)

  attempt-IsKept :
      (s : State) (x : Option StreamError)
      → s.opened ≡ 0
      → is_spent budget s.failures ≡ false
      → IsKeptNext (after_retry codec budget s x) × IsKeptNext (after_renewal codec budget s x)
  unfolding after_retry after_renewal
  attempt-IsKept s none o b = ((omega (arith, o), fresh_budget), (omega (arith, o), b))
  attempt-IsKept s (some e) o b =
      let k =
        ended-IsKept (is_terminal e) e (start_reconnect codec budget s)
          (start_reconnect-IsKept s) in
      (k, k)

  on_pause-IsKept :
      (s : State) (x : Option Error)
      → s.opened ≡ 0
      → is_spent budget s.failures ≡ false
      → IsKeptNext (on_pause codec budget s x)
  on_pause-IsKept s none o b = (o, b)
  on_pause-IsKept s (some c) o b = tt

  step_in-IsKept :
      (p : Phase) (f o : ℕ) (i : Input)
      → IsKept (record { phase = p; failures = f; opened = o })
      → IsKeptNext (step_in codec budget p (record { phase = p; failures = f; opened = o }) i)
  step_in-IsKept receiving f o i (h, b) =
      on_receive-IsKept (record { phase = receiving; failures = f; opened = o }) i.closed i.response
        h refl b
  step_in-IsKept pausing f o i (h, b) =
      on_pause-IsKept (record { phase = pausing; failures = f; opened = o }) i.pause h b
  step_in-IsKept retrying f o i (h, b) =
      (attempt-IsKept (record { phase = retrying; failures = f; opened = o }) (connect i.dial) h
        b).0
  step_in-IsKept renewing f o i (h, b) =
      (attempt-IsKept (record { phase = renewing; failures = f; opened = o }) (connect i.dial) h
        b).1

  abbrev IsKeptReport : Report codec budget → Type 0
  IsKeptReport (blocked s) = IsKept s
  IsKeptReport (returned o) = Unit

  carry-IsKept :
      (s : State) (i : Input) (n : Next codec budget)
      (again : State → List Heard × Report codec budget)
      → IsKeptNext n
      → ((s' : State) → IsKept s' → IsKeptReport (again s').1)
      → IsKeptReport (carry codec budget s i n again).1
  carry-IsKept s i (inl s') again h k = k s' h
  carry-IsKept s i (inr o) again h k = tt

  run-IsKept : (s : State) (is : List Input) → IsKept s → IsKeptReport (run codec budget s is).1
  unfolding run step
  run-IsKept s [] h = h
  run-IsKept s (i ∷ is) h =
      carry-IsKept s i (step codec budget s i) (λ s'. run codec budget s' is)
        (step_in-IsKept s.phase s.failures s.opened i h) (λ s' k. run-IsKept s' is k)

  unspent_le : (f : ℕ) → is_spent budget f ≡ false → pos 0 <ℤ budget → pos f ≤ℤ budget
  unspent_le f b = ground arith

  idle_lem : {o : ℕ} {p : Phase} → o ≡ 0 → (p ≡ receiving → ⊥) → (o ≡ 1) ↔ (p ≡ receiving)
  idle_lem h n = ((λ e. absurd (omega (arith, h, e))), (λ e. absurd (n e)))

  kept_facts :
      (p : Phase) (f o : ℕ)
      → IsKept (record { phase = p; failures = f; opened = o })
      → (o ≤ 1) × ((o ≡ 1) ↔ (p ≡ receiving)) × (pos 0 <ℤ budget → pos f ≤ℤ budget)
  kept_facts receiving f o (h, b) = (omega (arith, h), ((λ e. refl), (λ e. h)), unspent_le f b)
  kept_facts pausing f o (h, b) = (omega (arith, h), idle_lem h (λ e. cc), unspent_le f b)
  kept_facts retrying f o (h, b) = (omega (arith, h), idle_lem h (λ e. cc), unspent_le f b)
  kept_facts renewing f o (h, b) = (omega (arith, h), idle_lem h (λ e. cc), unspent_le f b)

  -- Whenever Recv waits, it has one connection if it waits for a response and none else, so that no
  -- connection is leaked and none counts twice against the limit; and a positive
  -- MaxReconnectAttempts has not been exceeded.
  pub recv-connections :
      (is : List Input) (s : State)
      → (recv codec budget is).1 ≡ blocked s
      → (s.opened ≤ 1)
        × ((s.opened ≡ 1) ↔ (s.phase ≡ receiving))
        × (pos 0 <ℤ budget → pos s.failures ≤ℤ budget)
  unfolding recv
  recv-connections is s h =
      let k : IsKeptReport (recv codec budget is).1 = run-IsKept live is (refl, fresh_budget) in
      kept_facts s.phase s.failures s.opened (rw h at k)
