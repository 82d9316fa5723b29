-- ===== src/Streaming/Queue.antt =====
-- The queue of received messages: enqueue, Dropped, the publish handler and Recv of
-- streaming/stream.go. The type of messages is a parameter; what `decode` made of a payload is an
-- argument.
pub mod Cases
pub mod Accounting
pub mod Ordering
use webull.Common.{
  ℕ, zero, suc, ◌+◌, ◌%◌, ◌^◌, Option, none, some, List, [], ◌∷◌, ◌++◌, ltb, if◌then◌else◌, length,
}
use webull.Common.Int.{ℤ, pos}
use webull.Errors.{Result, ok, err}

-- The channel with its capacity, oldest message first, and the counter of discarded messages.
pub record Queue (M : Type 0) : Type 0 where
  pub capacity : ℕ
  pub messages : List M
  pub dropped : ℕ

-- if o.QueueSize <= 0 { o.QueueSize = 256 }
unfoldable pub queue_size : ℤ → ℕ
queue_size (pos (suc n)) = suc n
queue_size _ = 256

-- s.dropped.Add(1), in 64 bits.
abbrev pub bump : ℕ → ℕ
bump d = (d + 1) % 2 ^ 64

module _ {M : Type 0} where
  abbrev pub new_queue : ℤ → Queue M
  new_queue size = record { capacity = queue_size size; messages = []; dropped = 0 }

  -- select { case s.queue <- msg: … default: }
  abbrev pub push : Queue M → M → Queue M
  push q m = record q {
    messages = if ltb (length q.messages) q.capacity then q.messages ++ (m ∷ []) else q.messages;
  }

  -- select { case <-s.queue: s.dropped.Add(1) default: }
  abbrev pub evict_from : Queue M → List M → Queue M
  evict_from q [] = q
  evict_from q (m ∷ ms) = record q { messages = ms; dropped = bump q.dropped }

  abbrev pub cons_some : Option M → List M → List M
  cons_some none ms = ms
  cons_some (some m) ms = m ∷ ms

  abbrev pub take_from : Queue M → List M → Option M × Queue M
  take_from q [] = (none, q)
  take_from q (m ∷ ms) = (some m, record q { messages = ms })

  -- Recv, where a message is there: the message that it returns. On an empty queue it blocks.
  unfoldable pub take_message : Queue M → Option M × Queue M
  take_message q = take_from q q.messages

  -- So many calls of Recv in a row: the messages that they return. One that blocks returns none.
  unfoldable pub take_messages : ℕ → Queue M → List M × Queue M
  take_messages zero q = ([], q)
  take_messages (suc n) q =
      let (m, q') = take_message q in let (ms, end) = take_messages n q' in (cons_some m ms, end)

  -- The second and the third select of enqueue, with so many calls of Recv before each.
  unfoldable pub make_room : ℕ → ℕ → Queue M → M → List M × Queue M
  make_room before between q m =
      let (early, q') = take_messages before q in
      let (late, q'') = take_messages between (evict_from q' q'.messages) in
      (early ++ late, push q'' m)

  -- enqueue. The consumer runs beside it: `before` of its calls come between the first select and
  -- the second, and `between` of them between the second and the third. With the queue afterwards
  -- the messages that those calls return.
  unfoldable pub enqueue : ℕ → ℕ → Queue M → M → List M × Queue M
  unfolding make_room
  enqueue before between q m =
      if ltb (length q.messages) q.capacity then ([], push q m) else make_room before between q m

  -- The publish handler: a payload that fails to decode is counted, the echo topic is passed over.
  unfoldable pub publish : ℕ → ℕ → Queue M → Result (Option M) → List M × Queue M
  publish before between q (err e) = ([], record q { dropped = bump q.dropped })
  publish before between q (ok none) = ([], q)
  publish before between q (ok (some m)) = enqueue before between q m

-- What happens to a queue, in order: a payload arrives, with the calls of Recv that come in the midst of
-- its handler; the consumer calls Recv; and a call of a replay fails, which is counted too.
pub data Event (M : Type 0) : Type 0 where
  arrived : ℕ → ℕ → Result (Option M) → Event M
  consumed : Event M
  replay_failed : Event M

module _ {M : Type 0} where
  -- The messages that the consumer gets, and the queue at the end.
  unfoldable pub run : Queue M → List (Event M) → List M × Queue M
  run q [] = ([], q)
  run q (arrived before between x ∷ es) =
      let (got, q') = publish before between q x in let (ms, end) = run q' es in (got ++ ms, end)
  run q (consumed ∷ es) =
      let (m, q') = take_message q in let (ms, end) = run q' es in (cons_some m ms, end)
  run q (replay_failed ∷ es) = run (record q { dropped = bump q.dropped }) es
