-- ===== src/MarketData/Watchlists.antt =====
-- Watchlists: marketdata/watchlists.go. The codecs of encoding/json are parameters.
pub mod Confirmed
use webull.Common.{
  ℕ, String, Bool, true, false, ◌&&◌, ◌||◌, Option, none, some, List, [], ◌∷◌, map, beq,
  if◌then◌else◌, codes, is_empty,
}
use webull.Common.Int.{ℤ}
use webull.Errors.{Result, watchlist_failed, sentinel, text, wrap, ok, err}
use webull.Transport.Url.{Bytes, same_bytes}
use webull.Transport.Http.{Env, Net}
use webull.MarketData.{MarketClient, get_market, post_market}
use webull.MarketData.Requests.{market_category}
use webull.Query.{set_value}
use Prim.Native.String.{◌++◌ as ◌<>◌}

pub record WatchlistEntry : Type 0 where
  pub symbol : String
  pub category : String
  pub sort : ℤ

-- The bodies of the calls; an empty name and a zero sort are left out by the codec.
pub data WatchlistBody : Type 0 where
  new_list : String → ℤ → WatchlistBody
  changed_list : String → String → ℤ → WatchlistBody
  only_id : String → WatchlistBody
  listed : String → List WatchlistEntry → WatchlistBody

-- A JSON value begins and ends with ASCII, so these are all the spaces that strings.TrimSpace meets.
abbrev is_space : ℕ → Bool
is_space c = beq c 32 || beq c 9 || beq c 10 || beq c 11 || beq c 12 || beq c 13

abbrev drop_spaces : Bytes → Bytes
drop_spaces [] = []
drop_spaces (c ∷ cs) = let rest = drop_spaces cs in if is_space c then rest else c ∷ cs

abbrev drop_last_spaces : Bytes → Bytes
drop_last_spaces [] = []
drop_last_spaces (c ∷ cs) =
    let rest = drop_last_spaces cs in if is_empty rest && is_space c then [] else c ∷ rest

-- strings.TrimSpace
unfoldable pub trim_space : Bytes → Bytes
trim_space s = drop_last_spaces (drop_spaces s)

abbrev pub of_wrapped : Result (Option Bool) → Result Bool
of_wrapped (err e) = err e
of_wrapped (ok none) = err (text "marketdata: unrecognised watchlist receipt")
of_wrapped (ok (some b)) = ok b

-- successBody.UnmarshalJSON; the parameter reads the field success of an envelope.
unfoldable pub read_success : (Bytes → Result (Option Bool)) → Bytes → Result Bool
read_success read b =
    let t = trim_space b in
    if same_bytes t (codes "true")
    then ok true
    else if same_bytes t (codes "false")
    then ok false
    else of_wrapped (read b)

-- successBody.err
unfoldable pub success_err : String → Bool → Result (Unit {0})
success_err op true = ok tt
success_err op false = err (wrap op (sentinel watchlist_failed))

-- An answer without a body leaves the receipt at its zero value.
unfoldable pub confirmed : String → Result (Option Bool) → Result (Unit {0})
unfolding success_err
confirmed op (err e) = err e
confirmed op (ok none) = success_err op false
confirmed op (ok (some b)) = success_err op b

abbrev pub filled_entry : WatchlistEntry → WatchlistEntry
filled_entry e = record e { category = market_category e.category }

abbrev pub filled_entries : List WatchlistEntry → List WatchlistEntry
filled_entries es = map filled_entry es

pub record WatchlistWire (L I : Type 0) : Type 0 where
  pub marshal : WatchlistBody → Result Bytes
  pub read_envelope : Bytes → Result (Option Bool)
  pub read_id : Bytes → Result String
  pub read_lists : Bytes → Result (List L)
  pub read_instruments : Bytes → Result (List I)

abbrev list_or_empty {ℓ} : {A : Type ℓ} → Result (Option (List A)) → Result (List A)
list_or_empty (ok none) = ok []
list_or_empty (ok (some l)) = ok l
list_or_empty (err e) = err e

abbrev or_no_id : Result (Option String) → Result String
or_no_id (ok none) = ok ""
or_no_id (ok (some s)) = ok s
or_no_id (err e) = err e

module _ {L I : Type 0} (w : WatchlistWire L I) (env : Env) (c : MarketClient) where
  abbrev pub receipt : String → WatchlistBody → Net → Result (Option Bool) × Net
  receipt path body net = post_market w.marshal env c path body (read_success w.read_envelope) net

  -- The post of a successBody and its err.
  unfoldable pub change_list : String → String → WatchlistBody → Net → Result (Unit {0}) × Net
  change_list op path body net = let (r, n) = receipt path body net in (confirmed op r, n)

  -- Watchlists
  unfoldable pub watchlists : Net → Result (List L) × Net
  watchlists net =
      let (r, n) = get_market env c "/market-data/watchlists/list" [] w.read_lists net in
      (list_or_empty r, n)

  -- CreateWatchlist
  unfoldable pub create_watchlist : String → ℤ → Net → Result String × Net
  create_watchlist name sort net =
      let (r, n) =
        post_market w.marshal env c "/market-data/watchlists/create" (new_list name sort) w.read_id
          net in
      (or_no_id r, n)

  -- UpdateWatchlist
  unfoldable pub update_watchlist : String → String → ℤ → Net → Result (Unit {0}) × Net
  update_watchlist id name sort net =
      change_list "update" "/market-data/watchlists/update" (changed_list id name sort) net

  -- DeleteWatchlist
  unfoldable pub delete_watchlist : String → Net → Result (Unit {0}) × Net
  delete_watchlist id net = change_list "delete" "/market-data/watchlists/delete" (only_id id) net

  -- WatchlistInstruments
  unfoldable pub watchlist_instruments : String → Net → Result (List I) × Net
  watchlist_instruments id net =
      let (r, n) =
        get_market env c "/market-data/watchlists/instruments/list" (set_value "watchlist_id" id [])
          w.read_instruments net in
      (list_or_empty r, n)

  -- mutateInstruments
  unfoldable pub mutate_instruments :
      String → String → List WatchlistEntry → Net → Result (Unit {0}) × Net
  mutate_instruments op id es net =
      change_list (op <> " instruments") ("/market-data/watchlists/instruments/" <> op)
        (listed id (filled_entries es)) net

  -- AddWatchlistInstruments
  unfoldable pub add_instruments : String → List WatchlistEntry → Net → Result (Unit {0}) × Net
  add_instruments id es net = mutate_instruments "add" id es net

  -- RemoveWatchlistInstruments
  unfoldable pub remove_instruments : String → List WatchlistEntry → Net → Result (Unit {0}) × Net
  remove_instruments id es net = mutate_instruments "remove" id es net

  -- UpdateWatchlistInstruments
  unfoldable pub update_instruments : String → List WatchlistEntry → Net → Result (Unit {0}) × Net
  update_instruments id es net = mutate_instruments "update" id es net
