-- ===== src/Trade/Client/Refusals.antt =====
-- What the order operations do with an input that they refuse, and the names they give to errors
-- (trade/orders.go).
use webull.Common.{
  ◌≢◌, String, ◌≡◌, refl, sym, ◌↔◌, ◌⊎◌, inl, inr, true, Option, none, some, [], ◌∷◌, arith,
  Bool-cases,
}
use webull.Errors.{
  Sentinel, Error, is_error, as_api, has_code, err_inj, is_error-sentinel, invalid_order,
  duplicate_order, ok, err,
}
use webull.Transport.Http.{Net}
use webull.Trade.Order.{Order}
use webull.Trade.Prepare.{Verdict, verdict_error, prepare, valid, nil_order, id_length, invalid}
use webull.Trade.Client.{
  Wire, Client, duplicate_order_code, classify, prepared, preview_prepared, preview_order,
  place_prepared, place_order,
}

-- What a client may learn of an error with errors.As and errors.Is is still there after classify, and
-- it is a duplicate order in addition exactly if it was one or has the code for it.
pub classify-is_error :
    (e : Error)
    → (as_api (classify e) ≡ as_api e)
      × ((s : Sentinel) → is_error e s ≡ true → is_error (classify e) s ≡ true)
      × ((is_error (classify e) duplicate_order ≡ true)
          ↔ ((is_error e duplicate_order ≡ true) ⊎ (has_code e (duplicate_order_code ∷ []) ≡ true)))
unfolding classify is_error as_api
classify-is_error e = elim (Bool-cases (has_code e (duplicate_order_code ∷ []))) [
  | inl h ↦ rw h (refl, (λ s k. ground arith), ground arith)
  | inr h ↦ rw h (refl, (λ s k. k), ground arith)
]

abbrev NamesInvalidOrder : Option Error → Type 0
NamesInvalidOrder none = Unit
NamesInvalidOrder (some e) = is_error e invalid_order ≡ true

verdict_error-NamesInvalidOrder : (v : Verdict) → NamesInvalidOrder (verdict_error v)
unfolding verdict_error is_error
verdict_error-NamesInvalidOrder valid = tt
verdict_error-NamesInvalidOrder nil_order = is_error-sentinel invalid_order
verdict_error-NamesInvalidOrder (id_length n) = is_error-sentinel invalid_order
verdict_error-NamesInvalidOrder (invalid ps) = is_error-sentinel invalid_order

-- The order, or the error of its verdict.
refused :
    {D : Type 0} (v : Option Error) (p : Order D) (e : Error)
    → NamesInvalidOrder v
    → (elim v [ none ↦ ok p | some e ↦ err e ]) ≡ err e
    → is_error e invalid_order ≡ true
refused none p e h k = cc
refused (some f) p e h k = rw (sym (err_inj k)) h

module _ {D T : Type 0} (w : Wire D T) where
  prepared-invalid_order :
      (fresh : String) (o : Option (Order D)) (e : Error)
      → prepared w fresh o ≡ err e
      → is_error e invalid_order ≡ true
  unfolding prepared is_error
  prepared-invalid_order fresh none e h = rw (sym (err_inj h)) (is_error-sentinel invalid_order)
  prepared-invalid_order fresh (some o) e h =
      let (p, v) = prepare w.ops fresh o in
      refused (verdict_error v) p e (verdict_error-NamesInvalidOrder v) h

  refusal :
      (p : Order D) (v : Verdict)
      → v ≢ valid
      → (e : Error) × ((elim (verdict_error v) [ none ↦ ok p | some e ↦ err e ]) ≡ err e)
  unfolding verdict_error
  refusal p valid n = absurd (n refl)
  refusal p nil_order n = (_, refl)
  refusal p (id_length k) n = (_, refl)
  refusal p (invalid ps) n = (_, refl)

  -- A nil order, or one that prepare finds fault with.
  abbrev pub IsInvalid : String → Option (Order D) → Type 0
  IsInvalid fresh none = Unit
  IsInvalid fresh (some o) = (prepare w.ops fresh o).1 ≢ valid

  prepared_refuses :
      (fresh : String) (o : Option (Order D))
      → IsInvalid fresh o
      → (e : Error) × (prepared w fresh o ≡ err e)
  unfolding prepared
  prepared_refuses fresh none h = (_, refl)
  prepared_refuses fresh (some o) h = refusal (prepare w.ops fresh o).0 (prepare w.ops fresh o).1 h

  -- An order that does not pass prepare, nil included, is refused as an invalid order, by PlaceOrder and
  -- PreviewOrder alike: both return the same error, and nothing is sent, authorized or slept.
  pub place_order-refused :
      (c : Client) (fresh account : String) (o : Option (Order D)) (net : Net)
      → IsInvalid fresh o
      → (e : Error) × (place_order w c fresh account o net ≡ (err e, net))
        × (preview_order w c fresh account o net ≡ (err e, net))
        × (is_error e invalid_order ≡ true)
  unfolding place_order preview_order place_prepared preview_prepared
  place_order-refused c fresh account o net i =
      let (e, h) = prepared_refuses fresh o i in
      (e, rw h refl, rw h refl, prepared-invalid_order fresh o e h)
