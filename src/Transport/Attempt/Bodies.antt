-- ===== src/Transport/Attempt/Bodies.antt =====
-- Reading a response with a limit (Doer.attempt, internal/transport/transport.go).
use native.Mathlib.Numerals.{add-one}
use webull.Common.{
  ℕ, zero, suc, ◌+◌, ◌≤◌, ◌≡◌, refl, ap, inl, inr, true, false, List, [], ◌∷◌, arith, ltb,
  if◌then◌else◌, Bool-cases, length, take, length-take,
}
use webull.Errors.{response_too_large, sentinel, wrap, ok, err}
use webull.Transport.Http.{HttpResponse, answered}
use webull.Transport.Attempt.{
  max_error_body, max_response_body, Response, is_success, read_body, receive,
}

module _ {ℓ} {A : Type ℓ} where
  take_all : (n : ℕ) (xs : List A) → length xs ≤ n → take n xs ≡ xs
  take_all zero [] h = refl
  take_all zero (x ∷ xs) h = absurd (omega arith)
  take_all (suc n) [] h = refl
  take_all (suc n) (x ∷ xs) h = ap (λ ys. x ∷ ys) (take_all n xs (omega arith))

  take-take : (n : ℕ) (xs : List A) → take n (take (suc n) xs) ≡ take n xs
  take-take zero xs = refl
  take-take (suc n) [] = refl
  take-take (suc n) (x ∷ xs) = ap (λ ys. x ∷ ys) (take-take n xs)

-- What a reader is promised of a response with a limit: the whole body if it fits, else the first
-- bytes of it, marked.
pub record IsRead (r : HttpResponse) (limit : ℕ) (resp : Response) : Type 0 where
  pub status : resp.status_code ≡ r.status_code
  pub whole : resp.truncated ≡ false → resp.body ≡ r.body
  pub prefix : resp.body ≡ take limit r.body
  pub marked : resp.truncated ≡ ltb limit (length r.body)
  pub success : is_success r.status_code ≡ true → resp.truncated ≡ false

ltb-take : (n : ℕ) {A : Type 0} (xs : List A) → ltb n (length (take (n + 1) xs)) ≡ ltb n (length xs)
ltb-take n xs = ground (arith, length-take (n + 1) xs)

take_read : (n : ℕ) {A : Type 0} (xs : List A) → take n (take (n + 1) xs) ≡ take n xs
take_read n xs = rw add-one (take-take n xs)

read_fits :
    (r : HttpResponse) (limit : ℕ)
    → ltb limit (length r.body) ≡ false
    → read_body r limit
      ≡ ok (record {
        status_code = r.status_code;
        header = r.header;
        body = r.body;
        truncated = false;
      })
unfolding read_body
read_fits r limit e = let f = take_all (limit + 1) r.body (ground arith) in rw (f, e) (ground arith)

read_cut :
    (r : HttpResponse) (limit : ℕ)
    → ltb limit (length r.body) ≡ true
    → read_body r limit ≡ (
        if is_success r.status_code
        then err (wrap "limit 33554432 bytes" (sentinel response_too_large))
        else ok (record {
          status_code = r.status_code;
          header = r.header;
          body = take limit r.body;
          truncated = true;
        }))
unfolding read_body
read_cut r limit e = rw (ltb-take limit r.body, take_read limit r.body, e) (ground arith)

read_body-IsRead :
    (r : HttpResponse) (limit : ℕ) (resp : Response)
    → read_body r limit ≡ ok resp
    → IsRead r limit resp
read_body-IsRead r limit resp h = elim (Bool-cases (ltb limit (length r.body))) [
  | inl e ↦ ground (arith, read_cut r limit e)
  | inr e ↦ ground (arith, read_fits r limit e, take_all limit r.body)
]

-- A response that the transport accepts was read whole if it fits the limit of its kind. A successful
-- response is never cut short: it is refused instead. Of an error response the first 8192 bytes are
-- kept, and the response is marked as truncated exactly if there were more.
pub receive-IsRead :
    (r : HttpResponse) (resp : Response)
    → receive (answered r) ≡ ok resp
    → IsRead r (if is_success r.status_code then max_response_body else max_error_body) resp
unfolding receive
receive-IsRead r resp h = read_body-IsRead r _ resp h
