-- ===== src/Sdk/Signed/Samples.antt =====
-- A signed request for bars, and the server's check of it.
use webull.Common.{String, none, [], ◌∷◌, Option}
use webull.Errors.{Result}
use webull.Transport.Url.{Bytes}
use webull.Transport.Http.{quiet}
use webull.Transport.Attempt.{Request}
use webull.Transport.Doer.{do_request}
use webull.Transport.Doer.Sent.{AllSent}
use webull.Transport.Samples.{sample_env, encode_text}
use webull.Sdk.{new_doer}
use webull.Sdk.Samples.{sample_platform, config}
use webull.Sdk.Signed.{IsVerified, do_request-IsVerified}

abbrev minute_bars : Request String
minute_bars = record {
  method = "GET";
  host = "api.webull.com";
  path = "/market-data/bars";
  query = ("symbol", "AAPL" ∷ []) ∷ ("timespan", "M1" ∷ []) ∷ [];
  body = none;
  form = none;
}

abbrev no_answer : Option (Bytes → Result String)
no_answer = none

do_request-IsVerified_example :
    AllSent
      (IsVerified sample_platform config)
      (do_request encode_text
        (new_doer sample_platform config)
        sample_env
        minute_bars
        no_answer
        quiet).1
do_request-IsVerified_example =
    do_request-IsVerified sample_platform config sample_env encode_text minute_bars no_answer quiet
      (((λ e. cc), tt), (tt, tt)) tt
