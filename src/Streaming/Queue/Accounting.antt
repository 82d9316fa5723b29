-- ===== src/Streaming/Queue/Accounting.antt =====
-- No message is lost without being counted, and the queue keeps its bound (streaming/stream.go).
use webull.Common.{
  ℕ, zero, suc, ◌+◌, ◌^◌, ◌≤◌, ◌<◌, ◌≡◌, refl, ap, inl, inr, Option, none, some, List, [], ◌∷◌,
  ◌++◌, arith, length, length-append,
}
use webull.Common.Int.{ℤ, pos, negsuc}
use webull.Errors.{Result, ok, err}
use webull.Streaming.Queue.{
  Queue, queue_size, bump, new_queue, enqueue, publish, take_from, take_message, Event, arrived,
  consumed, replay_failed, cons_some, run,
}
use webull.Streaming.Queue.Cases.{count_lost, MakesRoom, enqueue-cases}

-- How many payloads of the events are messages or fail to decode, and how many calls of a replay fail.
abbrev pub payloads : {M : Type 0} → List (Event M) → ℕ
payloads [] = 0
payloads (arrived before between (err e) ∷ es) = payloads es + 1
payloads (arrived before between (ok none) ∷ es) = payloads es
payloads (arrived before between (ok (some m)) ∷ es) = payloads es + 1
payloads (consumed ∷ es) = payloads es
payloads (replay_failed ∷ es) = payloads es + 1

-- A queue within its capacity, which is not zero.
abbrev pub IsBounded : {M : Type 0} → Queue M → Type 0
IsBounded q = (1 ≤ q.capacity) × (length q.messages ≤ q.capacity)

abbrev total : {M : Type 0} → Queue M → ℕ
total q = length q.messages + q.dropped

bump_lem : (d : ℕ) → d + 1 < 2 ^ 64 → bump d ≡ d + 1
bump_lem d h = omega arith

pub queue_size-pos : (size : ℤ) → 1 ≤ queue_size size
unfolding queue_size
queue_size-pos (pos zero) = omega arith
queue_size-pos (pos (suc n)) = omega arith
queue_size-pos (negsuc n) = omega arith

module _ {M : Type 0} where
  pub length-snoc : (xs : List M) (m : M) → length (xs ++ (m ∷ [])) ≡ length xs + 1
  length-snoc xs m = omega (arith, length-append xs (m ∷ []))

  abbrev count : Option M → ℕ
  count none = 0
  count (some m) = 1

  length-cons_some : (m : Option M) (ms : List M) → length (cons_some m ms) ≡ count m + length ms
  length-cons_some none ms = omega arith
  length-cons_some (some m) ms = omega arith

  count_lost_lem : (lost : Option M) (d : ℕ) → d + 1 < 2 ^ 64 → count_lost lost d ≡ d + count lost
  count_lost_lem none d h = omega arith
  count_lost_lem (some m) d h = bump_lem d h

  -- What leaves the queue and what is in it or counted afterwards, for a new message.
  abbrev IsCounted : Queue M → List M × Queue M → Type 0
  IsCounted q result = (length result.0 + total result.1 ≡ total q + 1) × IsBounded result.1

  MakesRoom-IsCounted :
      (q : Queue M) (m : M) (result : List M × Queue M)
      → IsBounded q
      → q.dropped + 1 < 2 ^ 64
      → MakesRoom q m result
      → IsCounted q result
  MakesRoom-IsCounted q m (out, end) b d (lost, early, late, kept, o, e, l, f) =
      let left = ap length o in
      let split = length-append early late in
      let all = ap length e in
      let outer = length-append early (cons_some lost (late ++ kept)) in
      let middle = length-cons_some lost (late ++ kept) in
      let inner = length-append late kept in
      let behind = length-snoc kept m in
      let counted = count_lost_lem lost q.dropped d in
      rw f (
        omega (arith, left, split, all, outer, middle, inner, behind, counted),
        (b.0, omega (arith, behind, l)),
      )

  enqueue-total :
      (before between : ℕ) (q : Queue M) (m : M)
      → IsBounded q
      → q.dropped + 1 < 2 ^ 64
      → IsCounted q (enqueue before between q m)
  enqueue-total before between q m b d = elim (enqueue-cases before between q m b.0 b.1) [
    | inl (l, e) ↦ rw e (ground (arith, length-snoc q.messages m))
    | inr r ↦ MakesRoom-IsCounted q m (enqueue before between q m) b d r
  ]

  publish-total :
      (before between : ℕ) (q : Queue M) (x : Result (Option M)) (es : List (Event M))
      → IsBounded q
      → total q + payloads (arrived before between x ∷ es) < 2 ^ 64
      → (length (publish before between q x).0 + total (publish before between q x).1 + payloads es
          ≡ total q + payloads (arrived before between x ∷ es))
        × IsBounded (publish before between q x).1
  unfolding publish
  publish-total before between q (err e) es b h = (omega (arith, bump_lem q.dropped), b)
  publish-total before between q (ok none) es b h = (omega arith, b)
  publish-total before between q (ok (some m)) es b h =
      let (t, b') = enqueue-total before between q m b (omega arith) in (omega (arith, t), b')

  take_from-total :
      (q : Queue M) (ms : List M)
      → q.messages ≡ ms
      → IsBounded q
      → (count (take_from q ms).0 + total (take_from q ms).1 ≡ total q)
        × IsBounded (take_from q ms).1
  take_from-total q [] e b = (omega arith, b)
  take_from-total q (m ∷ ms) e b =
      let n : length q.messages ≡ suc (length ms) = ap (λ xs. length xs) e in
      (omega (arith, n), (b.0, omega (arith, n, b.1)))

  run-total :
      (q : Queue M) (es : List (Event M))
      → IsBounded q
      → total q + payloads es < 2 ^ 64
      → (length (run q es).0 + total (run q es).1 ≡ total q + payloads es) × IsBounded (run q es).1
  unfolding run take_message
  run-total q [] b h = (omega arith, b)
  run-total q (arrived before between x ∷ es) b h =
      let got = publish before between q x in
      let (t, b') = publish-total before between q x es b h in
      let (r, b'') = run-total got.1 es b' (omega (arith, t)) in
      (omega (arith, t, r, length-append got.0 (run got.1 es).0), b'')
  run-total q (consumed ∷ es) b h =
      let taken = take_from q q.messages in
      let (t, b') = take_from-total q q.messages refl b in
      let (r, b'') = run-total taken.1 es b' (omega (arith, t)) in
      (omega (arith, t, r, length-cons_some taken.0 (run taken.1 es).0), b'')
  run-total q (replay_failed ∷ es) b h =
      let counted = bump_lem q.dropped (omega arith) in
      let (r, b') =
        run-total (record q { dropped = bump q.dropped }) es b (omega (arith, counted)) in
      (omega (arith, counted, r), b')

  -- Of a new queue, of whatever size was asked for, every message, every payload that failed to decode
  -- and every failed call of a replay is accounted for, as long as there are fewer than 2 ^ 64, also
  -- where the consumer takes messages between the steps of enqueue: it was delivered, is still
  -- queued, or is counted as dropped. The queue never holds more than its capacity.
  pub run-accounts :
      (size : ℤ) (es : List (Event M))
      → payloads es < 2 ^ 64
      → (let (delivered, q) = run (new_queue size) es in
          length delivered + length q.messages + q.dropped ≡ payloads es)
        × (length (run (new_queue size) es).1.messages ≤ (run (new_queue size) es).1.capacity)
  run-accounts size es h =
      let (t, b) = run-total (new_queue size) es (queue_size-pos size, omega arith) (omega arith) in
      (omega (arith, t), b.1)
