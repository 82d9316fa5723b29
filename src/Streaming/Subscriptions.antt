-- ===== src/Streaming/Subscriptions.antt =====
-- Subscriptions of a stream: streaming/client.go and the set of streaming/stream.go that a reconnect
-- replays. Each operation holds the stream's lock for its whole length, so operations follow one
-- another.
pub mod Remembered
use webull.Common.{
  suc, String, sym, Bool, true, false, not, ◌&&◌, ◌||◌, Option, none, some, List, [], ◌∷◌, ◌++◌,
  ◌==◌, if◌then◌else◌, is_empty,
}
use webull.Common.Int.{ℤ, pos}
use webull.Errors.{Error, Result, subscribe_failed, sentinel, text, join, ok, err}
use webull.Transport.Url.{Bytes}
use webull.Transport.Http.{Env, Net}
use webull.Transport.Attempt.{Doer}
use webull.Transport.Doer.{post}
use webull.Common.Numerals.{itoa}

abbrev pub us_stock : String
us_stock = "US_STOCK"

-- category
unfoldable pub category : String → String
category c = if c == "" then us_stock else c

pub record SubscribeRequest : Type 0 where
  pub symbols : List String
  pub category : String
  pub types : List String
  pub depth : ℤ
  pub snapshot : Bool
  pub overnight : Bool

pub record UnsubscribeRequest : Type 0 where
  pub symbols : List String
  pub category : String
  pub types : List String
  pub all : Bool

pub record SubKey : Type 0 where
  pub symbol : String
  pub category : String
  pub sub_type : String

pub record Subscription : Type 0 where
  pub depth : ℤ
  pub snapshot : Bool
  pub overnight : Bool

-- The map of subscriptions, newest first; of two entries for a key the first counts.
abbrev pub Subs : Type 0
Subs = List (SubKey × Subscription)

abbrev pub same_sub_key : SubKey → SubKey → Bool
same_sub_key a b = a.symbol == b.symbol && a.category == b.category && a.sub_type == b.sub_type

-- Whether one of the keys is `k`.
unfoldable pub contains_key : List SubKey → SubKey → Bool
contains_key [] k = false
contains_key (j ∷ js) k = same_sub_key j k || contains_key js k

-- s.subs[k]
unfoldable pub find_sub : SubKey → Subs → Option Subscription
find_sub k [] = none
find_sub k ((j, v) ∷ subs) = if same_sub_key j k then some v else find_sub k subs

-- delete(s.subs, k)
unfoldable pub delete_sub : SubKey → Subs → Subs
delete_sub k [] = []
delete_sub k ((j, v) ∷ subs) =
    let rest = delete_sub k subs in if same_sub_key j k then rest else (j, v) ∷ rest

-- The keys of the two nested loops over symbols and types.
unfoldable pub keys_of_symbol : String → String → List String → List SubKey
keys_of_symbol sym cat [] = []
keys_of_symbol sym cat (t ∷ ts) =
    record { symbol = sym; category = cat; sub_type = t } ∷ keys_of_symbol sym cat ts

unfoldable pub keys_of : List String → String → List String → List SubKey
keys_of [] cat ts = []
keys_of (sym ∷ syms) cat ts = keys_of_symbol sym cat ts ++ keys_of syms cat ts

unfoldable pub set_keys : Subscription → List SubKey → Subs → Subs
set_keys v [] subs = subs
set_keys v (k ∷ ks) subs = set_keys v ks ((k, v) ∷ subs)

unfoldable pub delete_keys : List SubKey → Subs → Subs
delete_keys [] subs = subs
delete_keys (k ∷ ks) subs = delete_keys ks (delete_sub k subs)

-- remember
unfoldable pub remember : SubscribeRequest → Subs → Subs
remember req subs =
    set_keys (record { depth = req.depth; snapshot = req.snapshot; overnight = req.overnight })
      (keys_of req.symbols (category req.category) req.types) subs

-- forget
unfoldable pub forget : UnsubscribeRequest → Subs → Subs
forget req subs =
    if req.all then [] else delete_keys (keys_of req.symbols (category req.category) req.types) subs

-- The JSON bodies of the two calls.
pub data StreamBody : Type 0 where
  subscribe_body :
      (session : String)
      → (symbols : List String) → (category : String) → (sub_types : List String) → (grab : String)
      → (depth : Option String) → (overnight_required : Bool) → StreamBody
  unsubscribe_all_body : (session : String) → StreamBody
  unsubscribe_body :
      (session : String)
      → (symbols : List String) → (category : String) → (sub_types : List String) → StreamBody

-- A connected stream: its client's transport, its session and its subscriptions.
pub record Stream : Type 0 where
  pub doer : Doer
  pub http_host : String
  pub session : String
  pub subs : Subs

abbrev bool_string : Bool → String
bool_string true = "true"
bool_string false = "false"

abbrev depth_text : ℤ → Option String
depth_text (pos (suc n)) = some (itoa (pos (suc n)))
depth_text _ = none

-- The body that Client.subscribe sends.
unfoldable pub subscribe_request : String → SubscribeRequest → StreamBody
subscribe_request session req =
    subscribe_body session req.symbols (category req.category) req.types (bool_string req.snapshot)
      (depth_text req.depth) req.overnight

unfoldable pub unsubscribe_request : String → UnsubscribeRequest → StreamBody
unsubscribe_request session req =
    if req.all
    then unsubscribe_all_body session
    else unsubscribe_body session req.symbols (category req.category) req.types

abbrev no_result : Option (Bytes → Result String)
no_result = none

module _ (marshal : StreamBody → Result Bytes) (env : Env) where
  unfoldable pub post_stream : Stream → String → StreamBody → Net → Result (Option String) × Net
  post_stream s path body net = post marshal s.doer env s.http_host path (some body) no_result net

  -- What a call's result makes of the stream.
  unfoldable pub after_call : Stream → Subs → Result (Option String) → Option Error × Stream
  after_call s subs (ok r) = (none, record s { subs = subs })
  after_call s subs (err e) = (some (join (sentinel subscribe_failed) e), s)

  -- Stream.Subscribe
  unfoldable pub subscribe : Stream → SubscribeRequest → Net → (Option Error × Stream) × Net
  subscribe s req net =
      if is_empty req.symbols || is_empty req.types
      then ((some (text "streaming: Subscribe requires Symbols and Types"), s), net)
      else let (r, n) =
          post_stream s "/market-data/streaming/subscribe" (subscribe_request s.session req) net in
        (after_call s (remember req s.subs) r, n)

  -- Stream.Unsubscribe
  unfoldable pub unsubscribe : Stream → UnsubscribeRequest → Net → (Option Error × Stream) × Net
  unsubscribe s req net =
      if not req.all && (is_empty req.symbols || is_empty req.types)
      then (
        (some (text "streaming: Unsubscribe requires Symbols and Types unless All is set"), s),
        net,
      )
      else let (r, n) =
          post_stream s "/market-data/streaming/unsubscribe" (unsubscribe_request s.session req)
            net in
        (after_call s (forget req s.subs) r, n)
