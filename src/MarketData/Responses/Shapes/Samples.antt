-- ===== src/MarketData/Responses/Shapes/Samples.antt =====
-- One row of a screener and one entry of bars, bare and in an object.
use webull.Common.{◌≡◌, refl}
use webull.Json.{Items, nil, cons, Fields, end, field, array, object, string, text_json}
use webull.Transport.Http.{same_key, same_folded}
use webull.MarketData.Responses.Shapes.{screener_list, bars_list}
use webull.MarketData.Responses.Shapes.Alike.{list_shapes-alike}
use webull.Trade.Accounts.Samples.{reader}

abbrev rows : Items
rows = cons (string "AAPL") nil

abbrev bars : Fields
bars = field "count" (string "1") (field "result" (array rows) end)

abbrev screened : Fields
screened = field "data" (array rows) end

list_shapes-alike_example :
    (bars_list reader (object bars) ≡ bars_list reader (array rows))
    × (screener_list "" text_json (object screened) ≡ screener_list "" text_json (array rows))
unfolding same_key same_folded
list_shapes-alike_example =
    list_shapes-alike reader "" text_json rows bars screened refl refl refl refl
