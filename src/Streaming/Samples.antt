-- ===== src/Streaming/Samples.antt =====
-- A sample stream, and the theorems on streams at these values.
use mathlib.Core.List.Permᴰ
use webull.Common.{
  ℕ, ◌+◌, ◌≤◌, len, ◌≡◌, ◌↔◌, true, false, none, some, List, [], ◌∷◌, arith, codes, length,
}
use webull.Common.Int.{pos}
use webull.Errors.{Result, text, ok, err}
use webull.Transport.Url.{Bytes}
use webull.Transport.Http.{quiet}
use webull.Transport.Samples.{sample_doer, sample_env}
use webull.Streaming.Messages.Fields.{DecimalParser}
use webull.Streaming.Messages.Decode.{Unmarshal, decode}
use webull.Streaming.Messages.Populated.{IsDecoded, decode-IsDecoded}
use webull.Streaming.Resubscribe.{entries_from, WalkOrder, replay}
use webull.Streaming.Resubscribe.Covered.{covered, replay-covered}
use webull.Streaming.Resubscribe.Grouped.{those, asks_alike, replay-one_call}
use webull.Streaming.Queue.{
  queue_size, new_queue, enqueue, publish, take_message, Event, run, arrived, consumed,
  replay_failed, make_room, take_messages,
}
use webull.Streaming.Queue.Accounting.{run-accounts}
use webull.Streaming.Subscriptions.{
  us_stock, category, SubscribeRequest, UnsubscribeRequest, SubKey, Subscription, Subs,
  contains_key, find_sub, keys_of_symbol, keys_of, set_keys, remember, forget, StreamBody, Stream,
  subscribe, unsubscribe,
}
use webull.Streaming.Subscriptions.Remembered.{
  remember-forget, IsAllOrNothing, subscribe-IsAllOrNothing,
}
use webull.Streaming.Queue.Ordering.{IsSublist, run-in_order}

-- A queue of one message, to which three messages and a bad payload come before the first is read. The
-- consumer reads the second while the queue makes room for the third, and then a replay fails.
abbrev busy : List (Event ℕ)
busy =
    arrived 0 0 (ok (some 1))
    ∷ consumed
    ∷ arrived 0 0 (ok (some 2))
    ∷ arrived 0 0 (err (text "bad"))
    ∷ arrived 0 0 (ok none)
    ∷ arrived 1 0 (ok (some 3))
    ∷ arrived 0 0 (ok (some 4))
    ∷ replay_failed
    ∷ []

run-accounts_example :
    (length (run (new_queue (pos 1)) busy).0
        + length (run (new_queue (pos 1)) busy).1.messages
        + (run (new_queue (pos 1)) busy).1.dropped
      ≡ 6)
    × (length (run (new_queue (pos 1)) busy).1.messages ≤ (run (new_queue (pos 1)) busy).1.capacity)
run-accounts_example = run-accounts (pos 1) busy (omega arith)

run-in_order_example : IsSublist {M = ℕ} (1 ∷ 2 ∷ 4 ∷ []) (1 ∷ 2 ∷ 3 ∷ 4 ∷ [])
unfolding run publish enqueue make_room take_messages take_message queue_size
run-in_order_example = run-in_order (pos 1) busy

abbrev stream : Stream
stream = record { doer = sample_doer; http_host = "api.webull.com"; session = "s"; subs = [] }

abbrev quotes : SubscribeRequest
quotes = record {
  symbols = "AAPL" ∷ "MSFT" ∷ [];
  category = "";
  types = "QUOTE" ∷ [];
  depth = pos 0;
  snapshot = true;
  overnight = false;
}

abbrev no_quotes : UnsubscribeRequest
no_quotes = record { symbols = "AAPL" ∷ []; category = ""; types = "QUOTE" ∷ []; all = false }

abbrev apple : SubKey
apple = record { symbol = "AAPL"; category = us_stock; sub_type = "QUOTE" }

abbrev remembered : Subscription
remembered = record { depth = pos 0; snapshot = true; overnight = false }

remember-forget_example :
    (find_sub apple (remember quotes []) ≡ some remembered)
    × (find_sub apple (forget no_quotes []) ≡ none)
unfolding category
remember-forget_example = remember-forget quotes no_quotes [] apple

abbrev encode_body_text : StreamBody → Result Bytes
encode_body_text b = ok (codes "{}")

subscribe-IsAllOrNothing_example :
    IsAllOrNothing encode_body_text sample_env stream
      (remember quotes [])
      (subscribe encode_body_text sample_env stream quotes quiet).0
    × IsAllOrNothing encode_body_text sample_env stream
        (forget no_quotes [])
        (unsubscribe encode_body_text sample_env stream no_quotes quiet).0
subscribe-IsAllOrNothing_example =
    subscribe-IsAllOrNothing encode_body_text sample_env stream quotes no_quotes quiet

abbrev walk : WalkOrder
walk = record { keys_order = λ es. es; calls_order = λ gs. gs }

-- Made by two calls.
abbrev two_requests : Subs
two_requests = remember quotes (remember (record quotes { symbols = "IBM" ∷ [] }) [])

replay-covered_example :
    (covered apple remembered (replay walk two_requests) ≡ true)
    ↔ (find_sub apple two_requests ≡ some remembered)
replay-covered_example =
    replay-covered walk two_requests (λ es. Permᴰ.refl es) (λ gs. Permᴰ.refl gs) apple remembered

-- Another subscription is remembered beside the two that agree.
abbrev three_requests : Subs
three_requests = remember (record quotes { symbols = "SPY" ∷ []; category = "US_ETF" }) two_requests

replay-one_call_example :
    those (asks_alike us_stock remembered "QUOTE") (replay walk three_requests)
    ≡ record {
      symbols = "MSFT" ∷ "AAPL" ∷ "IBM" ∷ [];
      category = us_stock;
      types = "QUOTE" ∷ [];
      depth = pos 0;
      snapshot = true;
      overnight = false;
    }
      ∷ []
unfolding entries_from contains_key remember set_keys keys_of keys_of_symbol category
replay-one_call_example =
    replay-one_call us_stock remembered "QUOTE" walk three_requests (λ gs. Permᴰ.refl gs)

abbrev no_message : {A : Type 0} → Bytes → Result A
no_message b = err (text "proto: cannot parse")

abbrev sample_unmarshal : Unmarshal
sample_unmarshal = record {
  read_snapshot = no_message;
  read_quote = no_message;
  read_tick = λ b.
      ok (record { basic = none; time = "1700000000000"; price = "19"; volume = ""; side = "BUY" });
  read_event_snapshot = no_message;
  read_event_quote = no_message;
  read_event_tick = no_message;
}

abbrev sample_parser : DecimalParser ℕ
sample_parser = record { zero_value = 0; from_string = λ s. some (len s) }

decode-IsDecoded_example :
    IsDecoded sample_parser sample_unmarshal "tick" []
      (decode sample_parser sample_unmarshal "tick" [])
decode-IsDecoded_example = decode-IsDecoded sample_parser sample_unmarshal "tick" []
