-- ===== src/MarketData/Responses/Shapes.antt =====
-- Lists that come in one of two shapes: barsList of marketdata/types.go, screenerList and SectorsPage of
-- marketdata/screeners.go.
pub mod Alike
pub mod Samples
use webull.Common.{String, List, []}
use webull.Errors.{Result, ◌>>=◌, ok}
use webull.Json.{
  Json, array, Fields, Decoder, read_field, text_json, items_json, list_json, struct_json, Reader,
}
use webull.MarketData.Responses.Stocks.{Bars}
use webull.MarketData.Responses.Stocks.Zero.{zero_bars}
use webull.MarketData.Responses.Stocks.Decoding.{decode_bars}
use webull.MarketData.Responses.Screeners.{Sector}
use webull.MarketData.Responses.Screeners.Zero.{zero_sector}
use webull.MarketData.Responses.Screeners.Decoding.{decode_sector}

-- A bare array, or an object that has it under a key.
unfoldable pub either_shape {ℓ} : {A : Type ℓ} → String → A → Decoder A → Json → Result (List A)
either_shape k zero dec (array vs) = items_json zero dec vs
either_shape k zero dec v = struct_json (read_field k (list_json zero dec)) [] v

-- screenerList.UnmarshalJSON
unfoldable pub screener_list {ℓ} : {A : Type ℓ} → A → Decoder A → Json → Result (List A)
screener_list zero dec v = either_shape "data" zero dec v

-- The key is empty on the last page.
pub record SectorsPage (D : Type 0) : Type 0 where
  pub sectors : List (Sector D)
  pub pagination_key : String

module _ {D T : Type 0} (r : Reader D T) where
  -- barsList.UnmarshalJSON
  unfoldable pub bars_list : Json → Result (List (Bars D T))
  bars_list v = either_shape "result" (zero_bars r) (struct_json (decode_bars r)) v

  abbrev pub zero_sectors_page : SectorsPage D
  zero_sectors_page = record { sectors = []; pagination_key = "" }

  abbrev decode_sectors_page : SectorsPage D → Fields → Result (SectorsPage D)
  decode_sectors_page x fs = do
    sectors ←
        read_field "data" (list_json (zero_sector r) (struct_json (decode_sector r))) x.sectors fs
    pagination_key ← read_field "pagination_key" text_json x.pagination_key fs
    ok (record { sectors = sectors; pagination_key = pagination_key })

  abbrev bare_page : Result (List (Sector D)) → Result (SectorsPage D)
  bare_page m = m >>= λ l. ok (record { sectors = l; pagination_key = "" })

  -- SectorsPage.UnmarshalJSON
  unfoldable pub sectors_page : Json → Result (SectorsPage D)
  sectors_page (array vs) =
      bare_page (items_json (zero_sector r) (struct_json (decode_sector r)) vs)
  sectors_page v = struct_json decode_sectors_page zero_sectors_page v
