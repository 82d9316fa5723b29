-- ===== src/Json/Samples.antt =====
-- A time of one millisecond past the epoch, and the theorem on written times at it.
use webull.Common.{◌≡◌, ◌≢◌, ◌↔◌, none, some, arith}
use webull.Common.Int.{pos}
use webull.Errors.{ok}
use webull.Json.Times.{millis_json, millis_marshal}
use webull.Json.Times.RoundTrip.{millis_json-marshal}

millis_json-marshal_example :
    (millis_json none (millis_marshal (some (pos 1))) ≡ ok (some (pos 1)))
    ↔ (some (pos 1) ≢ some (pos 0))
millis_json-marshal_example = millis_json-marshal none (some (pos 1)) (omega arith)
