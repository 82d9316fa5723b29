-- ===== src/Events/Closing/Leaks.antt =====
-- No connection outlives Close, however its steps and those of Recv interleave (events/client.go).
use webull.Common.{
  ℕ, ◌≡◌, refl, ◌⊎◌, inl, inr, Bool, true, false, Option, none, some, List, [], ◌∷◌, ◌++◌, arith,
  if◌then◌else◌, ◌∙◌,
}
use webull.Events.Closing.{
  Shared, subscribing, shut_held, drop_conn, dial, abandon, publish, cancel, close, Step, Reach,
  cancels, closes, drops, dials, abandons, publishes, here, next,
}

abbrev pub held : Option ℕ → List ℕ
held none = []
held (some i) = i ∷ []

-- What is open is what the stream holds and what connect is waiting on, one of them at most; and after a
-- Close the stream holds nothing.
record IsTracked (s : Shared) : Type 0 where
  alone : (s.conn ≡ none) ⊎ (s.dialing ≡ none)
  tracked : s.opened ≡ held s.conn ++ held s.dialing
  ended : (s.closed ≡ false) ⊎ ((s.canceled ≡ true) × (s.conn ≡ none))

shut_held-held : (o : Option ℕ) → shut_held o (held o) ≡ []
shut_held-held none = refl
shut_held-held (some i) = ground arith

held-append : (o : Option ℕ) → held o ++ [] ≡ held o
held-append none = refl
held-append (some i) = refl

-- Dropping one of the two leaves the other.
shut-tracked :
    (c d : Option ℕ)
    → (c ≡ none) ⊎ (d ≡ none)
    → (shut_held c (held c ++ held d) ≡ held d) × (shut_held d (held c ++ held d) ≡ held c)
shut-tracked c d (inl e) = rw e (refl, shut_held-held d)
shut-tracked c d (inr e) = rw (e, held-append c) (shut_held-held c, refl)

cancel-IsTracked : (s : Shared) → IsTracked s → IsTracked (cancel s)
unfolding cancel
cancel-IsTracked s t = ground arith

drop_conn-IsTracked : (s : Shared) → IsTracked s → IsTracked (drop_conn s)
unfolding drop_conn
drop_conn-IsTracked s t = record {
  alone = inl refl;
  tracked = rw t.tracked (shut-tracked s.conn s.dialing t.alone).0;
  ended = ground (arith, t.ended);
}

close-IsTracked : (s : Shared) → s.canceled ≡ true → IsTracked s → IsTracked (close s)
unfolding close
close-IsTracked s e t =
    let d = drop_conn-IsTracked s t in
    record { alone = d.alone; tracked = d.tracked; ended = inr (e, refl) }

dial-IsTracked : (s : Shared) → s.dialing ≡ none → s.conn ≡ none → IsTracked s → IsTracked (dial s)
unfolding dial
dial-IsTracked s e f t = record {
  alone = inl f;
  tracked = rw (t.tracked, f, e) refl;
  ended = t.ended;
}

abandon-IsTracked : (s : Shared) → IsTracked s → IsTracked (abandon s)
unfolding abandon
abandon-IsTracked s t = record {
  alone = inr refl;
  tracked = rw (t.tracked, held-append s.conn) (shut-tracked s.conn s.dialing t.alone).1;
  ended = t.ended;
}

publish-IsTracked : (s : Shared) (i : ℕ) → s.dialing ≡ some i → IsTracked s → IsTracked (publish s)
unfolding publish
publish-IsTracked s i e t =
    chosen s.canceled (abandon s) (record s { conn = s.dialing; dialing = none })
      (λ c. abandon-IsTracked s t)
      (λ c. record { alone = inr refl; tracked = kept; ended = running c })
  where
    kept : s.opened ≡ held s.dialing ++ []
    kept = elim t.alone [ inl f ↦ rw (t.tracked, f, e) refl | inr f ↦ cc ]

    running : s.canceled ≡ false → (s.closed ≡ false) ⊎ ((s.canceled ≡ true) × (s.dialing ≡ none))
    running c = ground (arith, t.ended)

    chosen :
        (b : Bool) (x y : Shared)
        → (b ≡ true → IsTracked x)
        → (b ≡ false → IsTracked y)
        → IsTracked (if b then x else y)
    chosen true x y f g = f refl
    chosen false x y f g = g refl

Step-IsTracked : {s t : Shared} → Step s t → IsTracked s → IsTracked t
Step-IsTracked (cancels s) h = cancel-IsTracked s h
Step-IsTracked (closes s e) h = close-IsTracked s e h
Step-IsTracked (drops s e) h = drop_conn-IsTracked s h
Step-IsTracked (dials s e f) h = dial-IsTracked s e f h
Step-IsTracked (abandons s i e) h = abandon-IsTracked s h
Step-IsTracked (publishes s i e) h = publish-IsTracked s i e h

Reach-IsTracked : {s t : Shared} → IsTracked s → Reach s t → IsTracked t
Reach-IsTracked h here = h
Reach-IsTracked h (next r st) = Step-IsTracked st (Reach-IsTracked h r)

subscribing-IsTracked : IsTracked subscribing
subscribing-IsTracked = record { alone = inl refl; tracked = refl; ended = inl refl }

-- However Close, the end of the context and the steps of Subscribe and Recv interleave: at most one
-- connection is open at a time, and once a Close has returned it is none but the one that a connect of
-- Recv is waiting on, which is closed, and not kept, where it is acknowledged.
pub Reach-IsReleased :
    {s : Shared}
    → Reach subscribing s
    → ((s.conn ≡ none) ⊎ (s.dialing ≡ none))
      × (s.opened ≡ held s.conn ++ held s.dialing)
      × ((s.closed ≡ false)
          ⊎ ((s.opened ≡ held s.dialing) × ((publish s).opened ≡ []) × ((publish s).conn ≡ none)))
unfolding publish abandon
Reach-IsReleased {s} r =
    let t = Reach-IsTracked subscribing-IsTracked r in
    (
      t.alone,
      t.tracked,
      elim t.ended [
        | inl e ↦ inl e
        | inr (c, n) ↦
            inr (t.tracked ∙ (rw n refl), rw (c, t.tracked, n) (shut_held-held s.dialing), rw c n)
      ],
    )
