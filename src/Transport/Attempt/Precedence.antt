-- ===== src/Transport/Attempt/Precedence.antt =====
-- Which header wins on a signed request (Doer.attempt, internal/transport/transport.go).
use webull.Common.{ℕ, String, ◌≡◌, refl, Bool, true, false, ◌||◌, [], ◌∷◌, arith, if◌then◌else◌}
use webull.Transport.Url.{Bytes}
use webull.Transport.Http.{Headers, same_key, set_header, get_header, set_all}
use webull.Transport.Http.HeaderLaws.{get_header-set_header, has_key, get_header-set_all}
use webull.Transport.Attempt.{Doer, Request, content_type, is_some, build}

-- A header that the transport writes itself, after the signature.
abbrev pub is_fixed : String → Bool
is_fixed k = same_key "Accept" k || same_key "Content-Type" k || same_key "User-Agent" k

get_header-content_type :
    (k : String) (is_form : Bool) (body : Bytes) (h : Headers)
    → same_key "Content-Type" k ≡ false
    → get_header k (content_type is_form body h) ≡ get_header k h
unfolding content_type
get_header-content_type k is_form [] h e = refl
get_header-content_type k true (c ∷ cs) h e = rw (get_header-set_header, e)
get_header-content_type k false (c ∷ cs) h e = rw (get_header-set_header, e)

module _ {ℓ} {B : Type ℓ} (d : Doer) (req : Request B) (body : Bytes) (auth : Headers) (n : ℕ) where
  abbrev pub signature : Headers
  signature = d.sign n (record { host = req.host; path = req.path; query = req.query; body = body })

  -- On a signed request every header of the signature has the value that the signature gave it, also
  -- where the authorizer set the same header; and a header that neither the signature nor the
  -- transport sets has the authorizer's value.
  pub build-precedence :
      (k : String)
      → is_fixed k ≡ false
      → get_header k (build d req body auth n).headers ≡ (
          if has_key k signature
          then get_header k (set_all signature [])
          else get_header k (set_all auth []))
  unfolding build
  build-precedence k e =
      let signed : Headers = set_all signature (set_all auth []) in
      let typed : Headers = content_type (is_some req.form) body signed in
      ground (
        arith,
        get_header-set_header k "User-Agent" d.user_agent
            (set_header "Accept" "application/json" typed),
        get_header-set_header k "Accept" "application/json" typed,
        get_header-content_type k (is_some req.form) body signed,
        get_header-set_all k signature (set_all auth []),
      )
