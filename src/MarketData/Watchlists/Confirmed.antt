-- ===== src/MarketData/Watchlists/Confirmed.antt =====
-- What a change of a watchlist reports and sends (marketdata/watchlists.go).
use webull.Common.{
  String, ◌≡◌, ◌≢◌, ◌⊎◌, true, Option, some, List, Bool, map, if◌then◌else◌, ◌==◌, codes,
}
use webull.Common.Int.{ℤ}
use webull.Errors.{Result, ok}
use webull.Transport.Url.{Bytes}
use webull.Transport.Http.{Env, Net}
use webull.Transport.Doer.{post}
use webull.Transport.Doer.Decoding.{raw}
use webull.MarketData.{MarketClient}
use webull.MarketData.Watchlists.{
  WatchlistEntry, WatchlistBody, changed_list, only_id, listed, WatchlistWire, trim_space, receipt,
  update_watchlist, delete_watchlist, add_instruments, remove_instruments, update_instruments,
}

pub data Change : Type 0 where
  update_list : String → String → ℤ → Change
  delete_list : String → Change
  add remove reorder : String → List WatchlistEntry → Change

abbrev pub change_path : Change → String
change_path (update_list id name sort) = "/market-data/watchlists/update"
change_path (delete_list id) = "/market-data/watchlists/delete"
change_path (add id es) = "/market-data/watchlists/instruments/add"
change_path (remove id es) = "/market-data/watchlists/instruments/remove"
change_path (reorder id es) = "/market-data/watchlists/instruments/update"

-- An entry with its category, which is US stocks where it is left out.
abbrev in_full : WatchlistEntry → WatchlistEntry
in_full e = record e { category = if e.category == "" then "US_STOCK" else e.category }

abbrev pub change_body : Change → WatchlistBody
change_body (update_list id name sort) = changed_list id name sort
change_body (delete_list id) = only_id id
change_body (add id es) = listed id (map in_full es)
change_body (remove id es) = listed id (map in_full es)
change_body (reorder id es) = listed id (map in_full es)

-- A body says yes: `true` with spaces around it, or, if it is neither this nor `false`, an envelope whose
-- field success is there and is true.
abbrev pub SaysYes : (Bytes → Result (Option Bool)) → Bytes → Type 0
SaysYes read b =
    (trim_space b ≡ codes "true")
    ⊎ ((trim_space b ≢ codes "true") × (trim_space b ≢ codes "false") × (read b ≡ ok (some true)))

module _ {L I : Type 0} (w : WatchlistWire L I) (env : Env) (c : MarketClient) (net : Net) where
  -- The operation that makes a change.
  abbrev pub changed : Change → Result (Unit {0}) × Net
  changed (update_list id name sort) = update_watchlist w env c id name sort net
  changed (delete_list id) = delete_watchlist w env c id net
  changed (add id es) = add_instruments w env c id es net
  changed (remove id es) = remove_instruments w env c id es net
  changed (reorder id es) = update_instruments w env c id es net

  receipt_of : Change → Result (Option Bool) × Net
  receipt_of x = receipt w env c (change_path x) (change_body x) net

  -- Webull's answer to the post of the change, byte for byte.
  pub answer : Change → Result (Option Bytes) × Net
  answer x = post w.marshal c.doer env c.host (change_path x) (some (change_body x)) (some raw) net
