-- ===== src/Events/Requests.antt =====
-- SubscribeRequest, Client.target and Client.Subscribe of events/client.go.
pub mod Mask
use Prim.Native.Nat.{bit_or}
use Prim.Native.String.{◌++◌ as ◌<>◌}
use webull.Transport.Url.{Bytes}
use webull.Transport.Http.{Headers, set_header}
use webull.Signing.{Signer, sign_stream}
use webull.Common.{
  ℕ, String, Bool, false, ◌||◌, Option, some, List, [], ◌∷◌, ◌==◌, beq, if◌then◌else◌, codes,
}
use webull.Common.Int.{ℤ, leb_ℤ, pos}
use webull.Errors.{Result, ◌>>=◌, text, ok}
use webull.Events.{StreamError, plain_error}
use webull.Events.Stream.{Dial, connect}

-- uint32 flags.
abbrev pub orders : ℕ
orders = 1

abbrev pub positions : ℕ
positions = 2

abbrev pub options : ℕ
options = 4

pub record SubscribeRequest : Type 0 where
  pub account_ids : List String
  pub types : List ℕ
  pub reconnect_delay : ℤ
  pub max_reconnect_attempts : ℤ

abbrev pub mask_loop : ℕ → List ℕ → ℕ
mask_loop m [] = m
mask_loop m (t ∷ ts) = mask_loop (bit_or m t) ts

abbrev pub mask_types : List ℕ → ℕ
mask_types [] = bit_or (bit_or orders positions) options
mask_types (t ∷ ts) = mask_loop 0 (t ∷ ts)

unfoldable pub mask : SubscribeRequest → ℕ
mask r = mask_types r.types

-- Five seconds, in nanoseconds.
abbrev pub default_delay : ℤ
default_delay = pos 5000000000

unfoldable pub delay : SubscribeRequest → ℤ
delay r = if leb_ℤ r.reconnect_delay (pos 0) then default_delay else r.reconnect_delay

abbrev pub contains_code : List ℕ → ℕ → Bool
contains_code [] c = false
contains_code (d ∷ ds) c = beq d c || contains_code ds c

-- target
unfoldable pub target : String → String
target host = if contains_code (codes host) b':' then host else host <> ":443"

-- Subscribe: the request is refused, or the first connection decides. What it returns is the error.
abbrev pub subscribe_with : List String → Dial → Option StreamError
subscribe_with [] dial = some (plain_error (text "events: SubscribeRequest.AccountIDs is required"))
subscribe_with (a ∷ rest) dial = connect dial

unfoldable pub subscribe_events : SubscribeRequest → Dial → Option StreamError
subscribe_events r dial = subscribe_with r.account_ids dial

-- eventspb.SubscribeRequest
pub record SubscribeMessage : Type 0 where
  pub subscribe_type : ℕ
  pub timestamp : ℤ
  pub accounts : List String

-- The signing key, proto.Marshal and Client.AccessToken.
pub record EventClient : Type 0 where
  pub signer : Signer
  pub access_token : String
  pub marshal : SubscribeMessage → Result Bytes

abbrev with_token : String → Headers → Headers
with_token token md = if token == "" then md else set_header "x-access-token" token md

unfoldable pub subscribe_message : SubscribeRequest → ℤ → SubscribeMessage
subscribe_message r now = record {
  subscribe_type = mask r;
  timestamp = now;
  accounts = r.account_ids;
}

-- The metadata that connect sends with the request, and its message.
unfoldable pub opening :
    EventClient → SubscribeRequest → ℤ → ℕ → Result (Headers × SubscribeMessage)
opening c r now n =
    let msg = subscribe_message r now in
    c.marshal msg >>= λ body. ok (with_token c.access_token (sign_stream c.signer n body), msg)
