-- ===== src/Transport/Http.antt =====
-- What transport.go and httpclient.go use of net/http: requests, responses, header maps, and a
-- network that answers as it likes.
pub mod HeaderLaws
use webull.Common.{
  ℕ, ◌+◌, String, Bool, true, false, not, ◌&&◌, ◌||◌, Option, none, some, List, [], ◌∷◌, ◌++◌, ◌==◌,
  leb, beq, if◌then◌else◌, codes, length,
}
use webull.Common.Int.{ℤ}
use webull.Errors.{Error, redirect_not_allowed, sentinel, wrap}
use webull.Transport.Url.{Bytes, Values}

abbrev pub Headers : Type 0
Headers = List (String × String)

unfoldable pub to_lower : ℕ → ℕ
to_lower c = if leb b'A' c && leb c b'Z' then c + 32 else c

unfoldable pub same_folded : List ℕ → List ℕ → Bool
unfolding to_lower
same_folded [] [] = true
same_folded (x ∷ xs) (y ∷ ys) = beq (to_lower x) (to_lower y) && same_folded xs ys
same_folded _ _ = false

-- Two spellings of one header name: http.Header canonicalises the case of its keys.
unfoldable pub same_key : String → String → Bool
unfolding same_folded
same_key a b = same_folded (codes a) (codes b)

-- Header.Set
unfoldable pub set_header : String → String → Headers → Headers
set_header k v [] = (k, v) ∷ []
set_header k v ((j, w) ∷ h) = if same_key j k then (j, v) ∷ h else (j, w) ∷ set_header k v h

-- Header.Get: a header that is absent reads as the empty text.
unfoldable pub get_header : String → Headers → String
get_header k [] = ""
get_header k ((j, w) ∷ h) = if same_key j k then w else get_header k h

-- for k, v := range new { h.Set(k, v) }
unfoldable pub set_all : Headers → Headers → Headers
set_all [] h = h
set_all ((k, v) ∷ new) h = set_all new (set_header k v h)

pub record HttpRequest : Type 0 where
  pub method : String
  pub host : String
  pub path : String
  pub raw_query : Bytes
  pub headers : Headers
  pub body : Bytes

pub record HttpResponse : Type 0 where
  pub status_code : ℕ
  pub header : Headers
  pub body : Bytes

-- What became of one exchange: no response, a response whose body could not be read, or a response.
pub data Exchange : Type 0 where
  failed : Error → Exchange
  cut : HttpResponse → Error → Exchange
  answered : HttpResponse → Exchange

-- The environment, which may answer each request and each pause differently: `reply` and `pause` are
-- given how many came before. Where net/http follows a redirect, `resent` has the requests that it sends
-- in doing so, the latest first, and `followed` what comes of them.
pub record Env : Type 0 where
  pub build_error : String → String → String → Values → Option Error
  pub reply : ℕ → HttpRequest → Exchange
  pub resent : ℕ → HttpRequest → HttpResponse → HttpRequest × List HttpRequest
  pub followed : ℕ → HttpResponse → Exchange
  pub pause : ℕ → ℤ → Option Error

-- The requests sent and the pauses made so far, the latest first.
pub record Net : Type 0 where
  pub sent : List HttpRequest
  pub slept : List ℤ

abbrev pub quiet : Net
quiet = record { sent = []; slept = [] }

-- http.Client, as far as the code sets it up.
pub record HttpClient : Type 0 where
  pub timeout : ℕ
  pub check_redirect : Option Error

abbrev pub default_timeout : ℕ
default_timeout = 30000000000

-- NewHTTPClient: a copy of the base client, if there is one, with redirects refused.
unfoldable pub new_http_client : Option HttpClient → HttpClient
new_http_client none = record {
  timeout = default_timeout;
  check_redirect = some (sentinel redirect_not_allowed);
}
new_http_client (some base) = record base { check_redirect = some (sentinel redirect_not_allowed) }

-- A redirect in the sense of net/http: one of five statuses, with a Location header.
unfoldable pub is_redirect : HttpResponse → Bool
is_redirect r =
    (beq r.status_code 301
      || beq r.status_code 302
      || beq r.status_code 303
      || beq r.status_code 307
      || beq r.status_code 308)
    && not (get_header "Location" r.header == "")

-- Client.Do on the reply to the n-th request: CheckRedirect may refuse to follow a redirect.
unfoldable pub after_redirect : Option Error → Env → ℕ → HttpResponse → Exchange → Exchange
after_redirect (some e) env n r x = if is_redirect r then failed (wrap "redirect" e) else x
after_redirect none env n r x = if is_redirect r then env.followed n r else x

unfoldable pub settle : HttpClient → Env → ℕ → Exchange → Exchange
settle c env n (failed e) = failed e
settle c env n (cut r e) = after_redirect c.check_redirect env n r (cut r e)
settle c env n (answered r) = after_redirect c.check_redirect env n r (answered r)

-- The requests that following a redirect takes: one at least, and none where CheckRedirect refuses.
abbrev resent_for : Env → ℕ → HttpRequest → HttpResponse → List HttpRequest
resent_for env n h r =
    let (last, earlier) = env.resent n h r in if is_redirect r then last ∷ earlier else []

unfoldable pub redirects : Option Error → Env → ℕ → HttpRequest → Exchange → List HttpRequest
redirects (some e) env n h x = []
redirects none env n h (failed e) = []
redirects none env n h (cut r e) = resent_for env n h r
redirects none env n h (answered r) = resent_for env n h r

unfoldable pub client_do : HttpClient → Env → HttpRequest → Net → Exchange × Net
unfolding settle after_redirect is_redirect redirects
client_do c env h net =
    let n = length net.sent in
    let x = env.reply n h in
    (settle c env n x, record net { sent = redirects c.check_redirect env n h x ++ (h ∷ net.sent) })
