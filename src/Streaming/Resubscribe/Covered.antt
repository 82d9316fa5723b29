-- ===== src/Streaming/Resubscribe/Covered.antt =====
-- Which subscriptions a replay asks for (resubscribe of streaming/stream.go).
use mathlib.Core.List.{Permᴰ}
use webull.Common.{
  String, ◌≡◌, refl, sym, ◌∙◌, ◌↔◌, inl, inr, Bool, true, false, not, ◌&&◌, ◌||◌, Option, none,
  some, List, [], ◌∷◌, ◌++◌, map, arith, ◌==◌, eq_iff, same_bool, Bool-cases, contains, any,
  any-perm,
}
use webull.Common.Int.{beq_ℤ_iff}
use webull.Streaming.Subscriptions.{
  SubscribeRequest, SubKey, Subscription, Subs, same_sub_key, contains_key, find_sub,
}
use webull.Streaming.Subscriptions.Remembered.{is_requested, same_sub_key_iff}
use webull.Streaming.Resubscribe.{
  entries_from, Group, same_options, same_group, add_entry, group_entries, request_of, WalkOrder,
  replay,
}

-- The request has the key, and its options are `v`.
abbrev pub asks : SubKey → Subscription → SubscribeRequest → Bool
asks k v r =
    is_requested r.symbols r.category r.types k
    && same_options (record { depth = r.depth; snapshot = r.snapshot; overnight = r.overnight }) v

abbrev pub covered : SubKey → Subscription → List SubscribeRequest → Bool
covered k v rs = any (asks k v) rs

abbrev covers : SubKey → Subscription → Group → Bool
covers k v g = same_group g k v && contains g.symbols k.symbol

abbrev covered_groups : SubKey → Subscription → List Group → Bool
covered_groups k v gs = any (covers k v) gs

abbrev lists : SubKey → Subscription → Subs → Bool
lists k v es = any (λ e. same_sub_key e.0 k && same_options e.1 v) es

covered-map :
    (k : SubKey) (v : Subscription) (gs : List Group)
    → covered k v (map request_of gs) ≡ covered_groups k v gs
covered-map k v [] = refl
covered-map k v (g ∷ gs) = ground (arith, covered-map k v gs)

same_bool_iff : (a b : Bool) → (same_bool a b ≡ true) ↔ (a ≡ b)
same_bool_iff true b = ground arith
same_bool_iff false true = ground arith
same_bool_iff false false = ground arith

same_options_iff : (a b : Subscription) → (same_options a b ≡ true) ↔ (a ≡ b)
same_options_iff a b = ground (
  arith,
  beq_ℤ_iff a.depth b.depth,
  same_bool_iff a.snapshot b.snapshot,
  same_bool_iff a.overnight b.overnight,
)

contains-append :
    (xs : List String) (s t : String) → contains (xs ++ (s ∷ [])) t ≡ (contains xs t || s == t)
contains-append [] s t = ground arith
contains-append (x ∷ xs) s t = ground (arith, contains-append xs s t)

pub same_group_iff :
    (g : Group) (k : SubKey) (v : Subscription)
    → (same_group g k v ≡ true)
      ↔ ((g.category ≡ k.category) × (g.options ≡ v) × (g.sub_type ≡ k.sub_type))
same_group_iff g k v = ground (
  arith,
  eq_iff g.category k.category,
  same_options_iff g.options v,
  eq_iff g.sub_type k.sub_type,
)

covered-add_entry :
    (k j : SubKey) (v w : Subscription) (gs : List Group)
    → covered_groups k v (add_entry j w gs)
      ≡ (covered_groups k v gs || (same_sub_key j k && same_options w v))
unfolding add_entry
covered-add_entry k j v w [] = ground arith
covered-add_entry k j v w (g ∷ gs) = elim (Bool-cases (same_group g j w)) [
  | inl e ↦
      let (c, o, t) = (same_group_iff g j w).0 e in
      rw e
        (ground (arith, c, o, t, same_group_iff g k v, contains-append g.symbols j.symbol k.symbol))
  | inr e ↦ rw e (ground (arith, covered-add_entry k j v w gs))
]

covered-group_entries :
    (k : SubKey) (v : Subscription) (es : Subs) (gs : List Group)
    → covered_groups k v (group_entries es gs) ≡ (covered_groups k v gs || lists k v es)
unfolding group_entries
covered-group_entries k v [] gs = ground arith
covered-group_entries k v ((j, w) ∷ es) gs =
    ground (arith, covered-group_entries k v es (add_entry j w gs), covered-add_entry k j v w gs)

abbrev found : Subscription → Option Subscription → Bool
found v none = false
found v (some w) = same_options w v

lists-entries_from :
    (k : SubKey) (v : Subscription) (seen : List SubKey) (subs : Subs)
    → lists k v (entries_from seen subs) ≡ (not (contains_key seen k) && found v (find_sub k subs))
unfolding entries_from contains_key find_sub
lists-entries_from k v seen [] = ground arith
lists-entries_from k v seen ((j, w) ∷ subs) = elim (Bool-cases (same_sub_key j k)) [
  | inl e ↦
      let (a, b, c) = (same_sub_key_iff j k).0 e in
      let same : j ≡ k = ground (arith, a, b, c) in
      let own = (same_sub_key_iff k k).1 (refl, refl, refl) in
      rw same (ground (arith, own, lists-entries_from k v (k ∷ seen) subs))
  | inr e ↦ ground (arith, e, lists-entries_from k v (j ∷ seen) subs)
]

found_iff : (v : Subscription) (o : Option Subscription) → (found v o ≡ true) ↔ (o ≡ some v)
found_iff v none = ground arith
found_iff v (some w) = ground (arith, same_options_iff w v)

-- A replay asks for a key with certain options just where the stream remembers the key with those
-- options, whatever the order in which Go walks the two maps.
pub replay-covered :
    (w : WalkOrder) (subs : Subs)
    → ((es : Subs) → Permᴰ es (w.keys_order es))
    → ((gs : List Group) → Permᴰ gs (w.calls_order gs))
    → (k : SubKey) (v : Subscription)
    → (covered k v (replay w subs) ≡ true) ↔ (find_sub k subs ≡ some v)
unfolding replay contains_key
replay-covered w subs hk hc k v =
    let es = entries_from [] subs in
    let gs = group_entries (w.keys_order es) [] in
    let p : covered k v (replay w subs) ≡ found v (find_sub k subs) =
      covered-map k v (w.calls_order gs)
      ∙ sym (any-perm (covers k v) gs (w.calls_order gs) (hc gs))
      ∙ covered-group_entries k v (w.keys_order es) []
      ∙ sym (any-perm (λ e. same_sub_key e.0 k && same_options e.1 v) es (w.keys_order es) (hk es))
      ∙ lists-entries_from k v [] subs in
    rw p (found_iff v (find_sub k subs))
