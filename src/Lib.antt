-- ===== src/Lib.antt =====
-- The verification library of the Webull SDK for Go.
--
-- The program signs HTTP requests to Webull and turns the answers into values. A caller configures a
-- root client (config.go, environment.go, client.go), which resolves hosts and builds one transport
-- (internal/transport) with a signer (internal/signing). The trading client (trade) prepares and checks
-- orders and groups of orders, then makes one call of the transport for each operation. The transport
-- encodes the body, asks the authorizer for headers, signs and sends, and retries what is safe to send
-- again. Error responses become values (errors.go) that callers match by sentinel or by code. The market
-- data client (marketdata) makes calls of the same transport; the streams of market data (streaming) and of
-- account events (events) keep their subscriptions through reconnects; connect gets and renews tokens.
--
-- Which file models which part:
--   Errors              errors.go and HasCode of internal/transport/helpers.go: errors as a tree of
--                       sentinels, texts, API errors, wrappings and joins; errors.Is is `is_error`,
--                       errors.As on an API error is `as_api`.
--   Transport           internal/transport: Url, Method, Retry, Http, Attempt and Doer have the parts
--                       of transport.go, retry.go, helpers.go and httpclient.go. Doer.Do is
--                       `do_request`, its loop `rounds`, one attempt `attempt`. The state that is
--                       passed along is a `Net`: the requests sent and the pauses made so far.
--   Signing             internal/signing/signing.go: the canonical texts and both kinds of signature.
--   Trade               trade/orders.go, trade/assets.go, trade/enums.go (Enums, Decimal, Order, Assets,
--                       Prepare, Messages), option symbols (Occ), the operations of trade.Client on
--                       orders (Client) and trade/combos.go (Combo). The look-ups of trade/accounts.go,
--                       trade/instruments.go, trade/futures.go and trade/events.go are in Lookups, and what
--                       they answer in Accounts, Profiles, Futures, FuturesUnits and EventContracts.
--                       Order.prepare is `prepare`: it gives the order as it leaves it and a verdict. A
--                       check is a pair of a Boolean and the problem that it reports, so that a list of
--                       checks is what the source appends in turn.
--   Streaming           streaming/stream.go, streaming/client.go and streaming/messages.go: the queue
--                       between the broker and Recv (Queue), as a run over arrivals and receptions in
--                       any order, the set of subscriptions with Subscribe and Unsubscribe
--                       (Subscriptions) and its replay after a reconnect (Resubscribe), and what decode
--                       makes of a payload (Wire, Messages). Connect, Close and the choice that Recv makes
--                       are in Connecting.
--   Events              events/events.go and events/client.go: events and errors (Events), the request
--                       (Requests), and Recv with its reconnects and renewals as a machine that is fed
--                       the answers of its surroundings (Stream). Close beside a Recv that reconnects is
--                       a relation of steps on the connections that are open (Closing).
--   Connect             connect/client.go: the token source as the two halves of its calls, in any
--                       order, with the expiry of tokens of connect/connect.go; connect/oauth.go
--                       (Oauth); what a caller gets by the clock (Decision); calls of Token one
--                       after the other over a store, connect/store.go (Session); the lifetimes
--                       of a token as JSON (Lifetimes).
--   Query               internal/query/query.go: the setters of Params over url.Values. Tables says of a
--                       query which parameters it holds.
--   Json                JSON values and the decoding of objects into structs by encoding/json, with the
--                       decoders of internal/wire/decimal.go, millis.go and time.go (Times).
--   MarketData          marketdata: the calls of the transport and the error that gets a name
--                       (MarketData), the path and the query of every GET (Requests), the
--                       watchlists with their receipts (Watchlists), the responses with the two shapes of
--                       their lists (Responses) and the candles of stocks (Bars).
--   Sdk                 config.go, environment.go, version.go and client.go. NewClient is `new_client`.
--                       auth.go and TokenCheckEnabled of client.go (Tokens). Signed puts the root client
--                       beside the server's check of a signature (Signing/Verification), which parses the
--                       query string that Transport/Url prints (Transport/Url/Parse).
--   Common              helpers: tests on numbers, lists, integers and numerals.
--
-- Numbers and texts: int and int64 values are natural numbers or integers (Common/Int.antt), with the
-- wrap-around of time.Duration written out in Sdk.antt (`seconds`) and the conversion from float64 in
-- Transport/Retry.antt as a parameter. A text's length is its length in bytes. Decimals of
-- github.com/shopspring/decimal are a type parameter with their zero value and text form.
--
-- What is outside: the network and the context answer as they like, as functions of how much was
-- asked before (`Env`); encoding/json, SHA-256, HMAC, base64, the clock, the random source and the
-- reading of dates are parameters (`Wire`, `Crypto`, `Platform`), and so are the gRPC and MQTT
-- connections, protobuf's decoder and the order in which Go walks a map (`WalkOrder`). Texts built by
-- fmt.Errorf are kept only as their constant part.
--
-- A JSON value holds a number as its text; the text of a response is parsed by encoding/json, which is a
-- parameter, and so are the reading of a decimal's text, time.Parse and time.Format.
--
-- Fuel: the retry loop runs on the number of attempts left, max(MaxAttempts, 1), which is its exact
-- bound in the source; numerals are printed on fuel n + 1, which exceeds the number of digits of n. Recv
-- of the event stream runs on the list of what its surroundings answer, and blocks at its end. All
-- other functions recurse on their data.
--
-- Requests are counted as they leave: where the base client follows redirects, those that net/http sends
-- for a redirect count too (`resent` of `Env`). The calls of Recv that come between the three selects of
-- enqueue are arguments of `enqueue`; messages are enqueued by a single goroutine.
--
-- Not modelled: the MQTT library of streaming and the gRPC library of events, the stores of tokens but the
-- one in memory, the footprints and the financial statements of marketdata, generated protocol code, and the
-- texts of error messages.
pub mod Common
pub mod Errors
pub mod Transport
pub mod Query
pub mod Json
pub mod Signing
pub mod Trade
pub mod Connect
pub mod Streaming
pub mod MarketData
pub mod Events
pub mod Sdk
