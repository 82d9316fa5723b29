-- ===== src/Events/Samples.antt =====
-- A sample event stream, and the theorems on streams at these values.
use webull.Common.{ℕ, ◌≤◌, ◌≡◌, refl, ◌↔◌, inl, inr, true, none, some, List, [], ◌∷◌, arith, codes}
use webull.Common.Int.{◌≤ℤ◌, ◌<ℤ◌, pos}
use webull.Errors.{is_error, text, ok, err}
use webull.Events.{
  OrderEvent, kind_order, subscribe_success, ping, StreamResponse, EventCodec, event_of,
  StreamError, wrap_status, control_error, retryable, is_terminal, unavailable,
}
use webull.Events.Stream.{
  on_stream, opening, Input, State, acknowledge, connect, gave_up, start_reconnect, after_retry,
  after_control, on_response, on_break, step, run, recv, dial_failed, ready, receiving, retrying,
  delivered, ended, returned,
}
use webull.Events.Stream.Lossless.{IsLossless, recv-IsLossless}
use webull.Events.Stream.Budget.{IsOutage, recv_gives_up}
use webull.Events.Stream.Connections.{recv-connections}

abbrev filled : OrderEvent ℕ ℕ
filled = record {
  request_id = "r1";
  account_id = "account";
  client_order_id = "c1";
  order_id = "o1";
  instrument_id = "913256135";
  symbol = "AAPL";
  category = "US_STOCK";
  status = "FILLED";
  scene = "FINAL_FILLED";
  side = "BUY";
  order_type = "LIMIT";
  quantity = record { decimal = 10; valid = true };
  filled_quantity = record { decimal = 10; valid = true };
  filled_price = record { decimal = 19000; valid = true };
  filled_time = 0;
}

abbrev sample_codec : EventCodec ℕ ℕ
sample_codec = record { read_order = λ b. ok filled; read_position = λ b. err (text "none") }

abbrev heartbeat : StreamResponse
heartbeat = record {
  event_type = ping;
  content_type = "";
  payload = [];
  request_id = "r0";
  timestamp = pos 0;
}

abbrev notification : StreamResponse
notification = record {
  event_type = kind_order;
  content_type = "application/json";
  payload = codes "{}";
  request_id = "r1";
  timestamp = pos 1700000000000;
}

abbrev lost : StreamError
lost = record { error = text "connection reset"; status = some unavailable }

abbrev acknowledged : StreamResponse
acknowledged = record heartbeat { event_type = subscribe_success }

abbrev outage : Input
outage = record { response = inr lost; closed = none; pause = none; dial = dial_failed lost }

abbrev healthy : StreamResponse → Input
healthy r = record { response = inl r; closed = none; pause = none; dial = ready acknowledged none }

-- A heartbeat, a break, a pause, a failed and a good attempt, and the notification.
abbrev bumpy : List Input
bumpy =
    healthy heartbeat
    ∷ outage
    ∷ outage
    ∷ outage
    ∷ outage
    ∷ healthy heartbeat
    ∷ healthy notification
    ∷ []

recv-IsLossless_example :
    IsLossless sample_codec
      (pos 3)
      (on_stream heartbeat ∷ opening acknowledged none ∷ on_stream notification ∷ [])
      (returned (delivered (event_of sample_codec notification)))
unfolding recv run step on_response after_control control_error on_break start_reconnect after_retry
    connect acknowledge retryable is_terminal is_error
recv-IsLossless_example = recv-IsLossless sample_codec (pos 3) bumpy

outage-IsOutage : IsOutage outage
unfolding connect retryable is_terminal is_error
outage-IsOutage = ((lost, refl, refl), refl, refl, ((wrap_status "events: dial" lost), refl, refl))

recv_gives_up_example :
    ((recv sample_codec (pos 1) (outage ∷ outage ∷ outage ∷ [])).1 ≡ returned (ended gave_up))
    ↔ (3 ≤ 3)
recv_gives_up_example =
    recv_gives_up sample_codec 1 (outage ∷ outage ∷ outage ∷ []) (omega arith)
      (outage-IsOutage, (outage-IsOutage, (outage-IsOutage, tt)))

abbrev waiting : State
waiting = record { phase = retrying; failures = 2; opened = 0 }

recv-connections_example :
    (0 ≤ 1) × ((◌≡◌ {A = ℕ} 0 1) ↔ (retrying ≡ receiving)) × (pos 0 <ℤ pos 2 → pos 2 ≤ℤ pos 2)
unfolding recv run step on_response after_control control_error on_break start_reconnect after_retry
    connect acknowledge retryable is_terminal is_error
recv-connections_example =
    recv-connections sample_codec (pos 2) (outage ∷ outage ∷ outage ∷ outage ∷ []) waiting refl
