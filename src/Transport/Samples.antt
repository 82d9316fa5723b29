-- ===== src/Transport/Samples.antt =====
-- A sample transport on a network that answers 503 first and 200 from then on, and the theorems on the
-- transport at these values.
use webull.Common.{
  ℕ, zero, suc, ◌≤◌, String, ◌≡◌, refl, ap, false, Option, none, some, [], ◌∷◌, arith, codes,
}
use webull.Common.Int.{◌≤ℤ◌, ◌<ℤ◌, pos, negsuc}
use webull.Errors.{Result, text, ok, err}
use webull.Transport.Url.{Bytes, utf8}
use webull.Transport.Method.{is_idempotent}
use webull.Transport.Http.{
  HttpRequest, HttpResponse, Exchange, Env, Net, quiet, new_http_client, is_redirect, redirects,
  after_redirect, settle, client_do, answered,
}
use webull.Transport.Attempt.{
  max_error_body, Response, Doer, Request, authorize_by, authorize, read_body, receive, attempt,
  sleep,
}
use webull.Transport.Doer.{rounds, do_request}
use webull.Transport.Doer.Safety.{sent_count, do_request-sent_once}
use webull.Transport.Retry.{Float, default_retry_policy, effective_max, backoff}
use webull.Transport.Retry.Backoff.{backoff_bounds}
use webull.Transport.Attempt.Bodies.{IsRead, receive-IsRead}
use webull.Transport.Doer.Outcomes.{final_result, rounds-eq-final, rounds-eq-last_error, here, next}

abbrev pub sample_float : Float
sample_float = record { round = λ n. n; beyond = negsuc 9223372036854775807 }

abbrev pub sample_doer : Doer
sample_doer = record {
  http_client = new_http_client none;
  sign = λ n req. ("x-signature", "abc") ∷ ("x-app-key", "key") ∷ [];
  user_agent = "webull-go";
  decode_error = λ resp. text "failed";
  retry = default_retry_policy;
  float = sample_float;
  authorizer = none;
}

abbrev pub ready : HttpResponse
ready = record { status_code = 200; header = []; body = codes "{}" }

abbrev pub unavailable : HttpResponse
unavailable = record { status_code = 503; header = []; body = codes "busy" }

abbrev pub first_fails : ℕ → HttpRequest → Exchange
first_fails zero req = answered unavailable
first_fails (suc n) req = answered ready

abbrev pub sample_env : Env
sample_env = record {
  build_error = λ m h p q. none;
  reply = first_fails;
  resent = λ n h r. (h, []);
  followed = λ n r. answered r;
  pause = λ n d. none;
}

-- A network that answers 503 always.
abbrev down_env : Env
down_env = record sample_env { reply = λ n req. answered unavailable }

abbrev sample_request : String → Request String
sample_request method = record {
  method = method;
  host = "api.webull.com";
  path = "/trading/orders/place";
  query = [];
  body = some "order";
  form = none;
}

abbrev pub encode_text : String → Result Bytes
encode_text s = ok (utf8 s)

abbrev no_output : Option (Bytes → Result String)
no_output = none

do_request-sent_once_example :
    sent_count
      (do_request encode_text sample_doer sample_env (sample_request "POST") no_output quiet).1
    ≤ 1
unfolding authorize authorize_by is_idempotent
do_request-sent_once_example =
    do_request-sent_once encode_text sample_doer sample_env (sample_request "POST") no_output quiet
      (none, refl) (omega arith) refl

abbrev response_of : HttpResponse → Response
response_of r = record {
  status_code = r.status_code;
  header = r.header;
  body = r.body;
  truncated = false;
}

-- The network after one attempt and the pause behind it.
abbrev after_one : Env → Net
after_one env =
    (sleep env (backoff sample_float default_retry_policy 1)
      (attempt sample_doer env (sample_request "GET") [] [] quiet).1).1

rounds-eq-final_example :
    (rounds sample_doer sample_env (sample_request "GET") [] [] no_output 3 0 none quiet).0
    ≡ final_result sample_doer no_output (response_of ready)
unfolding attempt client_do settle after_redirect is_redirect redirects receive read_body sleep
    is_idempotent new_http_client
rounds-eq-final_example =
    ap (λ x. x.0)
      (rounds-eq-final sample_doer sample_env (sample_request "GET") [] [] no_output 2
        (response_of ready) (next (response_of unavailable) refl (omega arith) refl here)
        (omega arith) refl refl (omega arith))

rounds-eq-last_error_example :
    (rounds sample_doer down_env (sample_request "GET") [] [] no_output 2 0 none quiet).0
    ≡ err (text "failed")
unfolding attempt client_do settle after_redirect is_redirect redirects receive read_body sleep
    is_idempotent new_http_client
rounds-eq-last_error_example =
    ap (λ x. x.0)
      (rounds-eq-last_error sample_doer down_env (sample_request "GET") [] [] no_output
        (response_of unavailable) (next (response_of unavailable) refl (omega arith) refl here) refl
        refl (omega arith))

receive-IsRead_example : IsRead unavailable max_error_body (response_of unavailable)
unfolding receive read_body
receive-IsRead_example = receive-IsRead unavailable (response_of unavailable) refl

backoff_bounds_example :
    (pos 0 <ℤ backoff sample_float default_retry_policy 9)
    × (backoff sample_float default_retry_policy 9 ≤ℤ effective_max default_retry_policy)
backoff_bounds_example = backoff_bounds sample_float default_retry_policy 9
