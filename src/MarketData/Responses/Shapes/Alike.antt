-- ===== src/MarketData/Responses/Shapes/Alike.antt =====
-- Both shapes of a list are read alike (marketdata/types.go, marketdata/screeners.go).
use webull.Common.{String, ◌≡◌, ap, ◌∙◌, true, some, []}
use webull.Json.{array, object, Items, Fields, Decoder, items_json, list_json, struct_json, Reader}
use webull.Json.Lookup.{find_field, is_once, decode_found, read_field-once}
use webull.MarketData.Responses.Stocks.Zero.{zero_bars}
use webull.MarketData.Responses.Stocks.Decoding.{decode_bars}
use webull.MarketData.Responses.Shapes.{either_shape, screener_list, bars_list}

either_shape-alike {ℓ} :
    {A : Type ℓ} (k : String) (zero : A) (dec : Decoder A) (vs : Items) (fs : Fields)
    → is_once k fs ≡ true
    → find_field k fs ≡ some (array vs)
    → either_shape k zero dec (object fs) ≡ items_json zero dec vs
unfolding either_shape struct_json list_json
either_shape-alike k zero dec vs fs o e =
    read_field-once k (list_json zero dec) [] fs o ∙ ap (decode_found (list_json zero dec) []) e

-- A list of bars, and the rows of a screener, are decoded alike, errors included, from a bare array and
-- from an object that holds this array under its key, whatever else the object holds.
pub list_shapes-alike :
    {A D T : Type 0} (r : Reader D T) (zero : A) (dec : Decoder A) (vs : Items) (bars rows : Fields)
    → is_once "result" bars ≡ true
    → find_field "result" bars ≡ some (array vs)
    → is_once "data" rows ≡ true
    → find_field "data" rows ≡ some (array vs)
    → (bars_list r (object bars) ≡ bars_list r (array vs))
      × (screener_list zero dec (object rows) ≡ screener_list zero dec (array vs))
unfolding bars_list screener_list either_shape
list_shapes-alike r zero dec vs bars rows o e p f = (
  either_shape-alike "result" (zero_bars r) (struct_json (decode_bars r)) vs bars o e,
  either_shape-alike "data" zero dec vs rows p f,
)
