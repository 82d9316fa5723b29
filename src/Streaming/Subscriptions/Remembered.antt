-- ===== src/Streaming/Subscriptions/Remembered.antt =====
-- Which subscriptions a stream remembers (streaming/stream.go, streaming/client.go).
use webull.Common.{
  String, ◌≡◌, refl, sym, ap, ◌∙◌, ◌↔◌, ◌⊎◌, inl, inr, Bool, true, false, not, ◌&&◌, ◌||◌, Option,
  none, some, List, [], ◌∷◌, ◌++◌, arith, ◌==◌, eq_iff, if◌then◌else◌, Bool-cases, is_empty,
  contains,
}
use webull.Errors.{Error, Result, ok, err}
use webull.Transport.Url.{Bytes}
use webull.Transport.Http.{Env, Net}
use webull.Streaming.Subscriptions.{
  category, SubscribeRequest, UnsubscribeRequest, SubKey, Subscription, Subs, same_sub_key,
  contains_key, find_sub, delete_sub, keys_of_symbol, keys_of, set_keys, delete_keys, remember,
  forget, StreamBody, Stream, after_call, subscribe, unsubscribe,
}

-- The key is one of those of a request: its symbol and its type are listed, and the category is that
-- of the request, US stocks where the request leaves it out.
abbrev pub is_requested : List String → String → List String → SubKey → Bool
is_requested symbols cat types k =
    contains symbols k.symbol && cat == k.category && contains types k.sub_type

contains_key-append :
    (xs ys : List SubKey) (k : SubKey)
    → contains_key (xs ++ ys) k ≡ (contains_key xs k || contains_key ys k)
unfolding contains_key
contains_key-append [] ys k = refl
contains_key-append (x ∷ xs) ys k = ground (arith, contains_key-append xs ys k)

keys_of_symbol-contains :
    (sym cat : String) (types : List String) (k : SubKey)
    → contains_key (keys_of_symbol sym cat types) k
      ≡ (sym == k.symbol && cat == k.category && contains types k.sub_type)
unfolding contains_key keys_of_symbol
keys_of_symbol-contains sym cat [] k = ground arith
keys_of_symbol-contains sym cat (t ∷ ts) k = ground (arith, keys_of_symbol-contains sym cat ts k)

keys_of-contains :
    (symbols : List String) (cat : String) (types : List String) (k : SubKey)
    → contains_key (keys_of symbols cat types) k ≡ is_requested symbols cat types k
unfolding keys_of contains_key
keys_of-contains [] cat types k = refl
keys_of-contains (sym ∷ syms) cat types k = ground (
  arith,
  contains_key-append (keys_of_symbol sym cat types) (keys_of syms cat types) k,
  keys_of_symbol-contains sym cat types k,
  keys_of-contains syms cat types k,
)

find_sub-set_keys :
    (v : Subscription) (ks : List SubKey) (subs : Subs) (k : SubKey)
    → find_sub k (set_keys v ks subs) ≡ (if contains_key ks k then some v else find_sub k subs)
unfolding set_keys contains_key find_sub
find_sub-set_keys v [] subs k = refl
find_sub-set_keys v (j ∷ js) subs k = ground (arith, find_sub-set_keys v js ((j, v) ∷ subs) k)

pub same_sub_key_iff :
    (a b : SubKey)
    → (same_sub_key a b ≡ true)
      ↔ ((a.symbol ≡ b.symbol) × (a.category ≡ b.category) × (a.sub_type ≡ b.sub_type))
same_sub_key_iff a b =
    ground
      (arith, eq_iff a.symbol b.symbol, eq_iff a.category b.category, eq_iff a.sub_type b.sub_type)

find_sub-delete_sub :
    (j : SubKey) (subs : Subs) (k : SubKey)
    → find_sub k (delete_sub j subs) ≡ (if same_sub_key j k then none else find_sub k subs)
unfolding delete_sub find_sub
find_sub-delete_sub j [] k = ground arith
find_sub-delete_sub j ((i, v) ∷ subs) k = ground (
  arith,
  find_sub-delete_sub j subs k,
  same_sub_key_iff i j,
  same_sub_key_iff i k,
  same_sub_key_iff j k,
)

find_sub-delete_keys :
    (ks : List SubKey) (subs : Subs) (k : SubKey)
    → find_sub k (delete_keys ks subs) ≡ (if contains_key ks k then none else find_sub k subs)
unfolding delete_keys contains_key
find_sub-delete_keys [] subs k = refl
find_sub-delete_keys (j ∷ js) subs k =
    ground (arith, find_sub-delete_keys js (delete_sub j subs) k, find_sub-delete_sub j subs k)

forgotten :
    (all : Bool) (ks : List SubKey) (subs : Subs) (k : SubKey)
    → find_sub k (if all then [] else delete_keys ks subs)
      ≡ (if all || contains_key ks k then none else find_sub k subs)
unfolding find_sub
forgotten true ks subs k = refl
forgotten false ks subs k = find_sub-delete_keys ks subs k

-- After `remember` a look-up of any key gives the options of the request where the request has the key,
-- and what was there before elsewhere; after `forget` it gives nothing where the request has the key or
-- asks for all, and what was there before elsewhere.
pub remember-forget :
    (req : SubscribeRequest) (un : UnsubscribeRequest) (subs : Subs) (k : SubKey)
    → (find_sub k (remember req subs) ≡ (
        if is_requested req.symbols (category req.category) req.types k
        then some (record { depth = req.depth; snapshot = req.snapshot; overnight = req.overnight })
        else find_sub k subs))
      × (find_sub k (forget un subs) ≡ (
          if un.all || is_requested un.symbols (category un.category) un.types k
          then none
          else find_sub k subs))
unfolding remember forget
remember-forget req un subs k =
    let opts : Subscription = record {
      depth = req.depth;
      snapshot = req.snapshot;
      overnight = req.overnight;
    } in
    let mine = keys_of req.symbols (category req.category) req.types in
    let theirs = keys_of un.symbols (category un.category) un.types in
    (
      find_sub-set_keys opts mine subs k
          ∙ ap (λ b. if b then some opts else find_sub k subs)
              (keys_of-contains req.symbols (category req.category) req.types k),
      forgotten un.all theirs subs k
          ∙ ap (λ b. if un.all || b then none else find_sub k subs)
              (keys_of-contains un.symbols (category un.category) un.types k),
    )

module _ (marshal : StreamBody → Result Bytes) (env : Env) where
  abbrev pub IsAllOrNothing : Stream → Subs → Option Error × Stream → Type 0
  IsAllOrNothing s subs (e, t) =
      ((e ≡ none) × (t ≡ record s { subs = subs })) ⊎ ((x : Error) × (e ≡ some x) × (t ≡ s))

  after_call-IsAllOrNothing :
      (s : Stream) (subs : Subs) (r : Result (Option String))
      → IsAllOrNothing s subs (after_call marshal env s subs r)
  unfolding after_call
  after_call-IsAllOrNothing s subs (ok r) = inl (refl, refl)
  after_call-IsAllOrNothing s subs (err e) = inr (_, refl, refl)

  -- A Subscribe or an Unsubscribe either succeeds, and changes the subscriptions of the stream and nothing
  -- else of it, or returns an error and leaves the stream as it was, so that a reconnect replays what
  -- it would have replayed before.
  pub subscribe-IsAllOrNothing :
      (s : Stream) (req : SubscribeRequest) (un : UnsubscribeRequest) (net : Net)
      → IsAllOrNothing s (remember req s.subs) (subscribe marshal env s req net).0
        × IsAllOrNothing s (forget un s.subs) (unsubscribe marshal env s un net).0
  unfolding subscribe unsubscribe
  subscribe-IsAllOrNothing s req un net = (
    elim (Bool-cases (is_empty req.symbols || is_empty req.types)) [
      | inl e ↦ rw e (inr (_, refl, refl))
      | inr e ↦ rw e (after_call-IsAllOrNothing s (remember req s.subs) _)
    ],
    elim (Bool-cases (not un.all && (is_empty un.symbols || is_empty un.types))) [
      | inl e ↦ rw e (inr (_, refl, refl))
      | inr e ↦ rw e (after_call-IsAllOrNothing s (forget un s.subs) _)
    ],
  )
