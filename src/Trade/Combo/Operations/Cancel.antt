-- ===== src/Trade/Combo/Operations/Cancel.antt =====
-- What CancelCombo reports (trade/combos.go).
use webull.Common.{
  String, ◌≡◌, refl, ◌≢◌, ◌↔◌, inl, inr, true, Option, none, some, List, [], ◌∷◌, ◌++◌, arith,
  Bool-cases, is_empty,
}
use webull.Errors.{Error, Result, has_code, ok, err}
use webull.Transport.Http.{Net}
use webull.Trade.Order.{Order}
use webull.Trade.Messages.{OrderReceipt}
use webull.Trade.Client.{Wire, Client, cancel_order}
use webull.Trade.Combo.{Combo}
use webull.Trade.Combo.Operations.{already_done, kept, cancel_each, join_errors, cancel_combo}

-- The cancellation succeeded, or there was nothing left to cancel.
abbrev pub IsGone : Result OrderReceipt → Type 0
IsGone (ok r) = Unit
IsGone (err e) =
    has_code e ("OPENAPI_ORDER_NOT_FOUND" ∷ "OPENAPI_ORDER_CAN_NOT_BE_CANCEL" ∷ []) ≡ true

module _ {D T : Type 0} (w : Wire D T) (c : Client) (account : String) where
  -- The orders are cancelled one after another, each on the network that the one before left, and each
  -- is gone.
  abbrev pub AreGone : List (Option (Order D)) → Net → Type 0
  AreGone [] net = Unit
  AreGone (none ∷ os) net = AreGone os net
  AreGone (some o ∷ os) net =
      IsGone (cancel_order w c account o.client_order_id net).0
      × AreGone os (cancel_order w c account o.client_order_id net).1

  kept_iff : (r : Result OrderReceipt) → (kept w r ≡ []) ↔ IsGone r
  unfolding kept already_done
  kept_iff (ok r) = ((λ h. tt), (λ h. refl))
  kept_iff (err e) = ground arith

  append_empty {ℓ} : {A : Type ℓ} (xs ys : List A) → (xs ++ ys ≡ []) ↔ ((xs ≡ []) × (ys ≡ []))
  append_empty [] ys = ((λ h. (refl, h)), (λ h. h.1))
  append_empty (x ∷ xs) ys = ground arith

  cancel_each_iff :
      (os : List (Option (Order D))) (net : Net)
      → ((cancel_each w c account os net).0 ≡ []) ↔ AreGone os net
  unfolding cancel_each
  cancel_each_iff [] net = ((λ h. tt), (λ h. refl))
  cancel_each_iff (none ∷ os) net = cancel_each_iff os net
  cancel_each_iff (some o ∷ os) net = ground (
    arith,
    append_empty (kept w (cancel_order w c account o.client_order_id net).0)
        (cancel_each w c account os (cancel_order w c account o.client_order_id net).1).0,
    kept_iff (cancel_order w c account o.client_order_id net).0,
    cancel_each_iff os (cancel_order w c account o.client_order_id net).1,
  )

  empty_is {ℓ} : {A : Type ℓ} (xs : List A) → is_empty xs ≡ true → xs ≡ []
  empty_is [] h = refl
  empty_is (x ∷ xs) h = cc

  join_errors_iff : (es : List Error) → (join_errors w es ≡ none) ↔ (es ≡ [])
  unfolding join_errors
  join_errors_iff [] = ((λ h. refl), (λ h. refl))
  join_errors_iff (e ∷ []) = ground arith
  join_errors_iff (e ∷ f ∷ es) = ground (arith, join_errors_iff (f ∷ es))

  -- The network once every order that is not nil was tried, in order, whatever became of the others.
  abbrev pub all_tried : List (Option (Order D)) → Net → Net
  all_tried [] net = net
  all_tried (none ∷ os) net = all_tried os net
  all_tried (some o ∷ os) net = all_tried os (cancel_order w c account o.client_order_id net).1

  cancel_each-all_tried :
      (os : List (Option (Order D))) (net : Net)
      → (cancel_each w c account os net).1 ≡ all_tried os net
  unfolding cancel_each
  cancel_each-all_tried [] net = refl
  cancel_each-all_tried (none ∷ os) net = cancel_each-all_tried os net
  cancel_each-all_tried (some o ∷ os) net =
      cancel_each-all_tried os (cancel_order w c account o.client_order_id net).1

  -- CancelCombo tries every order that is not nil, whatever became of the others, so that the network is as
  -- after one CancelOrder for each of them; and it reports no error exactly if each of them was cancelled
  -- or had nothing left to cancel.
  pub cancel_combo_iff :
      (combo : Combo D) (net : Net)
      → combo.orders ≢ []
      → ((cancel_combo w c account combo net).1 ≡ all_tried combo.orders net)
        × (((cancel_combo w c account combo net).0 ≡ none) ↔ AreGone combo.orders net)
  unfolding cancel_combo
  cancel_combo_iff combo net h = elim (Bool-cases (is_empty combo.orders)) [
    | inl e ↦ elim (h (empty_is combo.orders e)) [ ]
    | inr e ↦ rw e (
      cancel_each-all_tried combo.orders net,
      ground (
        arith,
        join_errors_iff (cancel_each w c account combo.orders net).0,
        cancel_each_iff combo.orders net,
      ),
    )
  ]
