-- ===== src/Streaming/Resubscribe.antt =====
-- resubscribe of streaming/stream.go: the replay of the remembered subscriptions. Go leaves the order
-- in which a map is walked open; `keys_order` and `calls_order` say it.
pub mod Covered
pub mod Grouped
use webull.Common.{
  ℕ, String, Bool, ◌&&◌, Option, List, [], ◌∷◌, ◌++◌, map, ◌==◌, same_bool, if◌then◌else◌, is_empty,
}
use webull.Common.Int.{beq_ℤ}
use webull.Errors.{Result, ok, err}
use webull.Transport.Url.{Bytes}
use webull.Transport.Http.{Env, Net}
use webull.Streaming.Queue.{bump}
use webull.Streaming.Subscriptions.{
  category, SubscribeRequest, SubKey, Subscription, Subs, contains_key, StreamBody, Stream,
  subscribe_request, post_stream,
}

-- The entries of the map: of each key the first.
unfoldable pub entries_from : List SubKey → Subs → Subs
entries_from seen [] = []
entries_from seen ((k, v) ∷ subs) =
    let rest = entries_from (k ∷ seen) subs in if contains_key seen k then rest else (k, v) ∷ rest

-- The symbols of one category, options and type.
pub record Group : Type 0 where
  pub category : String
  pub options : Subscription
  pub sub_type : String
  pub symbols : List String

abbrev pub same_options : Subscription → Subscription → Bool
same_options a b =
    beq_ℤ a.depth b.depth && same_bool a.snapshot b.snapshot && same_bool a.overnight b.overnight

abbrev pub same_group : Group → SubKey → Subscription → Bool
same_group g k v = g.category == k.category && same_options g.options v && g.sub_type == k.sub_type

-- byGroup[g][k.subType] = append(byGroup[g][k.subType], k.symbol)
unfoldable pub add_entry : SubKey → Subscription → List Group → List Group
add_entry k v [] =
    record { category = k.category; options = v; sub_type = k.sub_type; symbols = k.symbol ∷ [] }
    ∷ []
add_entry k v (g ∷ gs) =
    let rest = add_entry k v gs in
    if same_group g k v then record g { symbols = g.symbols ++ (k.symbol ∷ []) } ∷ gs else g ∷ rest

unfoldable pub group_entries : Subs → List Group → List Group
group_entries [] gs = gs
group_entries ((k, v) ∷ es) gs = group_entries es (add_entry k v gs)

-- The request that replays a group.
abbrev pub request_of : Group → SubscribeRequest
request_of g = record {
  symbols = g.symbols;
  category = g.category;
  types = g.sub_type ∷ [];
  depth = g.options.depth;
  snapshot = g.options.snapshot;
  overnight = g.options.overnight;
}

-- The order in which the two maps are walked.
pub record WalkOrder : Type 0 where
  pub keys_order : Subs → Subs
  pub calls_order : List Group → List Group

-- The requests of a replay, in the order in which they are sent.
unfoldable pub replay : WalkOrder → Subs → List SubscribeRequest
replay w subs =
    map request_of (w.calls_order (group_entries (w.keys_order (entries_from [] subs)) []))

module _ (marshal : StreamBody → Result Bytes) (env : Env) where
  abbrev count_failure : Result (Option String) → ℕ → ℕ
  count_failure (ok r) dropped = dropped
  count_failure (err e) dropped = bump dropped

  -- The calls, each of which counts as dropped if it fails.
  unfoldable pub send_all : Stream → List SubscribeRequest → ℕ → Net → ℕ × Net
  send_all s [] dropped net = (dropped, net)
  send_all s (r ∷ rs) dropped net =
      let (result, n) =
        post_stream marshal env s "/market-data/streaming/subscribe" (subscribe_request s.session r)
          net in
      send_all s rs (count_failure result dropped) n

  -- resubscribe: the counter of dropped messages behind it.
  unfoldable pub resubscribe : WalkOrder → Stream → ℕ → Net → ℕ × Net
  resubscribe w s dropped net =
      if is_empty s.subs then (dropped, net) else send_all s (replay w s.subs) dropped net
