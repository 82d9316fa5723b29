-- ===== src/Streaming/Queue/Ordering.antt =====
-- The consumer sees the messages in the order in which they came (streaming/stream.go).
use webull.Common.{
  ℕ, suc, ◌≡◌, refl, sym, ◌∙◌, ap, inl, inr, Option, none, some, List, [], ◌∷◌, ◌++◌, arith, length,
}
use webull.Common.Int.{ℤ}
use webull.Errors.{ok, err}
use webull.Streaming.Queue.{
  Queue, new_queue, enqueue, publish, take_from, take_message, Event, arrived, consumed,
  replay_failed, cons_some, run, bump,
}
use webull.Streaming.Queue.Cases.{enqueue-cases}
use webull.Streaming.Queue.Accounting.{IsBounded, queue_size-pos, length-snoc}

-- The first list is the second with some elements left out.
pub data IsSublist {M : Type 0} : List M → List M → Type 0 where
  done : IsSublist [] []
  keep : {m : M} {xs ys : List M} → IsSublist xs ys → IsSublist (m ∷ xs) (m ∷ ys)
  skip : {m : M} {xs ys : List M} → IsSublist xs ys → IsSublist xs (m ∷ ys)

-- The messages among the events, in order.
abbrev pub messages_of : {M : Type 0} → List (Event M) → List M
messages_of [] = []
messages_of (arrived before between (err e) ∷ es) = messages_of es
messages_of (arrived before between (ok none) ∷ es) = messages_of es
messages_of (arrived before between (ok (some m)) ∷ es) = m ∷ messages_of es
messages_of (consumed ∷ es) = messages_of es
messages_of (replay_failed ∷ es) = messages_of es

module _ {M : Type 0} where
  sub_refl : (xs : List M) → IsSublist xs xs
  sub_refl [] = done
  sub_refl (x ∷ xs) = keep (sub_refl xs)

  sub_trans : {ys zs : List M} → IsSublist ys zs → {xs : List M} → IsSublist xs ys → IsSublist xs zs
  sub_trans done s = s
  sub_trans (skip t) s = skip (sub_trans t s)
  sub_trans (keep t) (keep s) = keep (sub_trans t s)
  sub_trans (keep t) (skip s) = skip (sub_trans t s)

  append_nil : (xs : List M) → xs ++ [] ≡ xs
  append_nil [] = refl
  append_nil (x ∷ xs) = ap (λ ys. x ∷ ys) (append_nil xs)

  append_one : (xs : List M) (m : M) (ys : List M) → (xs ++ (m ∷ [])) ++ ys ≡ xs ++ (m ∷ ys)
  append_one [] m ys = refl
  append_one (x ∷ xs) m ys = ap (λ zs. x ∷ zs) (append_one xs m ys)

  append_assoc : (xs ys zs : List M) → (xs ++ ys) ++ zs ≡ xs ++ (ys ++ zs)
  append_assoc [] ys zs = refl
  append_assoc (x ∷ xs) ys zs = ap (λ r. x ∷ r) (append_assoc xs ys zs)

  sub_behind : (ws : List M) {xs ys : List M} → IsSublist xs ys → IsSublist (ws ++ xs) (ws ++ ys)
  sub_behind [] s = s
  sub_behind (w ∷ ws) s = keep (sub_behind ws s)

  sub_lost : (lost : Option M) (xs : List M) → IsSublist xs (cons_some lost xs)
  sub_lost none xs = sub_refl xs
  sub_lost (some m) xs = skip (sub_refl xs)

  cons_some-append : (m : Option M) (xs ys : List M) → cons_some m xs ++ ys ≡ cons_some m (xs ++ ys)
  cons_some-append none xs ys = refl
  cons_some-append (some m) xs ys = refl

  -- What leaves the queue for a new message, and what is in it afterwards, with those to come behind.
  abbrev IsOrdered : Queue M → M → List M → List M × Queue M → Type 0
  IsOrdered q m ys result =
      IsSublist (result.0 ++ (result.1.messages ++ ys)) (q.messages ++ (m ∷ ys))
      × IsBounded result.1

  regroup :
      (early late kept : List M) (m : M) (ys : List M)
      → (early ++ late) ++ ((kept ++ (m ∷ [])) ++ ys) ≡ early ++ ((late ++ kept) ++ (m ∷ ys))
  regroup early late kept m ys =
      ap (λ r. (early ++ late) ++ r) (append_one kept m ys)
      ∙ append_assoc early late (kept ++ (m ∷ ys))
      ∙ ap (λ r. early ++ r) (sym (append_assoc late kept (m ∷ ys)))

  enqueue-IsOrdered :
      (before between : ℕ) (q : Queue M) (m : M) (ys : List M)
      → IsBounded q
      → IsOrdered q m ys (enqueue before between q m)
  enqueue-IsOrdered before between q m ys b = elim (enqueue-cases before between q m b.0 b.1) [
    | inl (l, e) ↦
        rw (e, append_one q.messages m ys)
          (sub_refl (q.messages ++ (m ∷ ys)), (b.0, omega (arith, l, length-snoc q.messages m)))
    | inr (lost, early, late, kept, o, e, l, f) ↦
        let behind = (late ++ kept) ++ (m ∷ ys) in
        let all : q.messages ++ (m ∷ ys) ≡ early ++ cons_some lost behind =
          ap (λ r. r ++ (m ∷ ys)) (sym e)
          ∙ append_assoc early (cons_some lost (late ++ kept)) (m ∷ ys)
          ∙ ap (λ r. early ++ r) (cons_some-append lost (late ++ kept) (m ∷ ys)) in
        rw (f, o, regroup early late kept m ys, all)
          (sub_behind early (sub_lost lost behind), (b.0, omega (arith, l, length-snoc kept m)))
  ]

  take_from-IsSublist :
      (q : Queue M) (ms : List M) (xs ys : List M)
      → q.messages ≡ ms
      → IsBounded q
      → (IsSublist xs ((take_from q ms).1.messages ++ ys)
          → IsSublist (cons_some (take_from q ms).0 xs) (ms ++ ys))
        × IsBounded (take_from q ms).1
  take_from-IsSublist q [] xs ys e b = ((λ s. rw e at s), b)
  take_from-IsSublist q (m ∷ ms) xs ys e b =
      let n : length q.messages ≡ suc (length ms) = ap (λ zs. length zs) e in
      ((λ s. keep s), (b.0, omega (arith, n, b.1)))

  run-IsSublist :
      (q : Queue M) (es : List (Event M))
      → IsBounded q
      → IsSublist ((run q es).0 ++ (run q es).1.messages) (q.messages ++ messages_of es)
  unfolding run publish take_message
  run-IsSublist q [] b = rw (append_nil q.messages) (sub_refl q.messages)
  run-IsSublist q (arrived before between (err e) ∷ es) b =
      run-IsSublist (record q { dropped = bump q.dropped }) es b
  run-IsSublist q (arrived before between (ok none) ∷ es) b = run-IsSublist q es b
  run-IsSublist q (arrived before between (ok (some m)) ∷ es) b =
      let got = enqueue before between q m in
      let rest = run got.1 es in
      let (s, b') = enqueue-IsOrdered before between q m (messages_of es) b in
      rw (append_assoc got.0 rest.0 rest.1.messages)
        (sub_trans s (sub_behind got.0 (run-IsSublist got.1 es b')))
  run-IsSublist q (replay_failed ∷ es) b =
      run-IsSublist (record q { dropped = bump q.dropped }) es b
  run-IsSublist q (consumed ∷ es) b =
      let taken = take_from q q.messages in
      let rest = run taken.1 es in
      let (s, b') =
        take_from-IsSublist q q.messages (rest.0 ++ rest.1.messages) (messages_of es) refl b in
      rw (cons_some-append taken.0 rest.0 rest.1.messages) (s (run-IsSublist taken.1 es b'))

  -- What the consumer gets from a new queue, followed by what is still queued, is the sequence of the
  -- messages that arrived with some of them left out: none is repeated, invented or overtaken.
  pub run-in_order :
      (size : ℤ) (es : List (Event M))
      → IsSublist
          ((run (new_queue size) es).0 ++ (run (new_queue size) es).1.messages)
          (messages_of es)
  run-in_order size es = run-IsSublist (new_queue size) es (queue_size-pos size, omega arith)
