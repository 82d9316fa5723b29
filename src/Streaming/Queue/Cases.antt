-- ===== src/Streaming/Queue/Cases.antt =====
-- What enqueue does to a queue with room, and to a full one (streaming/stream.go).
use webull.Common.{
  ℕ, zero, suc, ◌≤◌, ◌<◌, ◌≡◌, refl, sym, ap, ◌∙◌, ◌⊎◌, inl, inr, Option, none, some, true, List,
  [], ◌∷◌, ◌++◌, arith, ltb, Bool-cases, length, length-append,
}
use webull.Streaming.Queue.{
  Queue, bump, cons_some, evict_from, take_from, take_message, take_messages, make_room, enqueue,
}

-- The counter once the queue has made room: a message that it discarded is counted.
abbrev pub count_lost : {M : Type 0} → Option M → ℕ → ℕ
count_lost none d = d
count_lost (some m) d = bump d

module _ {M : Type 0} where
  abbrev with_rest : Queue M → List M → Queue M
  with_rest q ms = record q { messages = ms }

  take_from_lem :
      (q : Queue M) (ms : List M)
      → q.messages ≡ ms
      → (kept : List M) × (cons_some (take_from q ms).0 kept ≡ ms)
        × ((take_from q ms).1 ≡ with_rest q kept)
  take_from_lem q [] e = ([], refl, rw (sym e) refl)
  take_from_lem q (m ∷ ms) e = (ms, refl, refl)

  cons_some-append : (m : Option M) (xs ys : List M) → cons_some m xs ++ ys ≡ cons_some m (xs ++ ys)
  cons_some-append none xs ys = refl
  cons_some-append (some m) xs ys = refl

  -- Calls of Recv return a first part of the queue, in order, and leave the rest.
  take_messages_lem :
      (n : ℕ) (q : Queue M)
      → (kept : List M) × ((take_messages n q).0 ++ kept ≡ q.messages)
        × ((take_messages n q).1 ≡ with_rest q kept)
  unfolding take_messages take_message
  take_messages_lem zero q = (q.messages, refl, refl)
  take_messages_lem (suc n) q =
      let (rest, e, f) = take_from_lem q q.messages refl in
      let (kept, g, h) = take_messages_lem n (take_from q q.messages).1 in
      let m = (take_from q q.messages).0 in
      let ms = (take_messages n (take_from q q.messages).1).0 in
      (
        kept,
        cons_some-append m ms kept ∙ ap (cons_some m) (g ∙ ap (λ r. r.messages) f) ∙ e,
        h ∙ ap (λ r. with_rest r kept) f,
      )

  evict_from_lem :
      (q : Queue M) (ms : List M)
      → q.messages ≡ ms
      → (lost : Option M) × (kept : List M) × (cons_some lost kept ≡ ms)
        × ((ms ≡ []) ⊎ (length kept < length ms))
        × (evict_from q ms ≡ record q { messages = kept; dropped = count_lost lost q.dropped })
  evict_from_lem q [] e = (none, [], refl, inl refl, rw (sym e) refl)
  evict_from_lem q (m ∷ ms) e = (some m, ms, refl, inr (omega arith), refl)

  -- There is room once a full queue has let a message go, or has been emptied by the consumer.
  room :
      (lost : Option M) (early late k1 k2 k3 ms : List M) (cap : ℕ)
      → 1 ≤ cap
      → length ms ≤ cap
      → early ++ k1 ≡ ms
      → cons_some lost k2 ≡ k1
      → (k1 ≡ []) ⊎ (length k2 < length k1)
      → late ++ k3 ≡ k2
      → length k3 < cap
  room lost early late k1 k2 k3 ms cap c l e f g h =
      let first = length-append early k1 in
      let all = ap length e in
      let last = length-append late k3 in
      let rest = ap length h in
      elim g [
        | inl z ↦ omega (arith, last, rest, emptied lost k2 (f ∙ z), c)
        | inr s ↦ omega (arith, first, all, last, rest, s, l)
      ]
    where
      emptied : (lost : Option M) (k : List M) → cons_some lost k ≡ [] → length k ≡ 0
      emptied none k e = ap length e
      emptied (some x) k e = absurd (cc)

  -- The messages that leave a full queue while it takes one: some are returned by Recv, at most one of
  -- them is discarded and counted.
  abbrev pub MakesRoom : Queue M → M → List M × Queue M → Type 0
  MakesRoom q m result =
      (lost : Option M) × (early : List M) × (late : List M) × (kept : List M) × (result.0
        ≡ early ++ late)
      × (early ++ cons_some lost (late ++ kept) ≡ q.messages)
      × (length kept < q.capacity)
      × (result.1 ≡ record q { messages = kept ++ (m ∷ []); dropped = count_lost lost q.dropped })

  make_room_lem :
      (before between : ℕ) (q : Queue M) (m : M)
      → 1 ≤ q.capacity
      → length q.messages ≤ q.capacity
      → MakesRoom q m (make_room before between q m)
  unfolding make_room
  make_room_lem before between q m c l =
      let (k1, e1, f1) = take_messages_lem before q in
      let (lost, k2, e2, g2, f2) = evict_from_lem (with_rest q k1) k1 refl in
      let q2 = record q { messages = k2; dropped = count_lost lost q.dropped } in
      let (k3, e3, f3) = take_messages_lem between q2 in
      let early = (take_messages before q).0 in
      let late = (take_messages between q2).0 in
      let fits : length k3 < q.capacity =
        room lost early late k1 k2 k3 q.messages q.capacity c l e1 e2 g2 e3 in
      let has_room : ltb (length k3) q.capacity ≡ true = ground arith in
      rw (f1, f2, f3, has_room)
        (
          lost,
          early,
          late,
          k3,
          refl,
          ap (λ ms. early ++ cons_some lost ms) e3 ∙ ap (λ ms. early ++ ms) e2 ∙ e1,
          fits,
          refl,
        )

  -- Of a queue that is not over its capacity: with room the message is put behind the others; a full
  -- one makes room.
  pub enqueue-cases :
      (before between : ℕ) (q : Queue M) (m : M)
      → 1 ≤ q.capacity
      → length q.messages ≤ q.capacity
      → ((length q.messages < q.capacity)
          × (enqueue before between q m ≡ ([], record q { messages = q.messages ++ (m ∷ []) })))
        ⊎ MakesRoom q m (enqueue before between q m)
  unfolding enqueue
  enqueue-cases before between q m c l = elim (Bool-cases (ltb (length q.messages) q.capacity)) [
    | inl e ↦ inl (ground arith, rw e refl)
    | inr e ↦ inr (rw e (make_room_lem before between q m c l))
  ]
