-- ===== src/Streaming/Resubscribe/Grouped.antt =====
-- How a replay groups the subscriptions (resubscribe of streaming/stream.go).
use webull.Common.{
  String, ◌≡◌, refl, sym, ap, ◌∙◌, Bool, true, false, inl, inr, List, [], ◌∷◌, ◌++◌, map,
  if◌then◌else◌, Bool-cases, length-perm, nothing, perm_singleton,
}
use webull.Streaming.Subscriptions.{SubscribeRequest, SubKey, Subscription, Subs}
use webull.Streaming.Resubscribe.{
  entries_from, Group, same_group, add_entry, group_entries, request_of, WalkOrder, replay,
}
use webull.Streaming.Resubscribe.Covered.{same_group_iff}
use mathlib.Core.List.{Permᴰ}
use mathlib.Core.List.Permᴰ

-- The elements that pass a test.
abbrev pub those {ℓ} : {A : Type ℓ} → (A → Bool) → List A → List A
those p [] = []
those p (x ∷ xs) = if p x then x ∷ those p xs else those p xs

those-perm {ℓ} :
    {A : Type ℓ} (p : A → Bool) (xs ys : List A) → Permᴰ xs ys → Permᴰ (those p xs) (those p ys)
those-perm p [] [] Permᴰ.nil = Permᴰ.nil
those-perm p (x ∷ xs) (y ∷ ys) (Permᴰ.cons e h) = elim (Bool-cases (p x)) [
  | inl t ↦ rw (t, sym e, t) (Permᴰ.cons refl (those-perm p xs ys h))
  | inr t ↦ rw (t, sym e, t) (those-perm p xs ys h)
]
those-perm p (a ∷ b ∷ l) (c ∷ d ∷ m) (Permᴰ.swap e f) =
    let same = Permᴰ.refl (those p l) in
    rw (sym e, sym f)
      (elim (Bool-cases (p a)) [
        | inl t ↦ elim (Bool-cases (p b)) [
          | inl u ↦ rw (t, u) (Permᴰ.swap refl refl)
          | inr u ↦ rw (t, u) (Permᴰ.cons refl same)
        ]
        | inr t ↦ elim (Bool-cases (p b)) [
          | inl u ↦ rw (t, u) (Permᴰ.cons refl same)
          | inr u ↦ rw (t, u) same
        ]
      ])
those-perm p xs zs (Permᴰ.trans {l₂ = ys} h k) =
    Permᴰ.trans (those-perm p xs ys h) (those-perm p ys zs k)

append_nil {ℓ} : {A : Type ℓ} (xs : List A) → xs ++ [] ≡ xs
append_nil [] = refl
append_nil (x ∷ xs) = ap (λ ys. x ∷ ys) (append_nil xs)

append_one {ℓ} :
    {A : Type ℓ} (xs : List A) (m : A) (ys : List A) → (xs ++ (m ∷ [])) ++ ys ≡ xs ++ (m ∷ ys)
append_one [] m ys = refl
append_one (x ∷ xs) m ys = ap (λ zs. x ∷ zs) (append_one xs m ys)

module _ (cat : String) (v : Subscription) (t : String) where
  abbrev group_of : List String → Group
  group_of syms = record { category = cat; options = v; sub_type = t; symbols = syms }

  -- Whether a remembered subscription, a group or a request has the category, options and type.
  abbrev is_alike : SubKey × Subscription → Bool
  is_alike e = same_group (group_of []) e.0 e.1

  abbrev key_of : Group → SubKey × Subscription
  key_of g = (record { symbol = ""; category = g.category; sub_type = g.sub_type }, g.options)

  abbrev only : List String → String
  only (s ∷ []) = s
  only _ = ""

  abbrev pub asks_alike : SubscribeRequest → Bool
  asks_alike r = is_alike (
    record { symbol = ""; category = r.category; sub_type = only r.types },
    record { depth = r.depth; snapshot = r.snapshot; overnight = r.overnight },
  )

  -- The symbols of the subscriptions that have them, in the order in which they are walked.
  abbrev pub symbols_alike : Subs → List String
  symbols_alike [] = []
  symbols_alike (e ∷ es) = if is_alike e then e.0.symbol ∷ symbols_alike es else symbols_alike es

  abbrev group_with : List String → List Group
  group_with [] = []
  group_with (s ∷ ss) = group_of (s ∷ ss) ∷ []

  -- One request for some symbols, and none for no symbol.
  abbrev pub request_with : List String → List SubscribeRequest
  request_with [] = []
  request_with (s ∷ ss) =
      record {
        symbols = s ∷ ss;
        category = cat;
        types = t ∷ [];
        depth = v.depth;
        snapshot = v.snapshot;
        overnight = v.overnight;
      }
      ∷ []

  -- A group that has them takes exactly the subscriptions that have them.
  alike_group :
      (g : Group) (k : SubKey) (u : Subscription)
      → is_alike (key_of g) ≡ true
      → same_group g k u ≡ is_alike (k, u)
  alike_group g k u h =
      let (c, o, s) = (same_group_iff (group_of []) (key_of g).0 g.options).0 h in
      rw (sym c, sym o, sym s) refl

  other_group :
      (g : Group) (k : SubKey) (u : Subscription)
      → same_group g k u ≡ true
      → is_alike (key_of g) ≡ is_alike (k, u)
  other_group g k u h = let (c, o, s) = (same_group_iff g k u).0 h in rw (c, o, s) refl

  abbrev groups_alike : List Group → List Group
  groups_alike gs = those (λ g. is_alike (key_of g)) gs

  abbrev with_symbol : Bool → List String → String → List String
  with_symbol b ss s = if b then ss ++ (s ∷ []) else ss

  no_group : (ss : List String) → [] ≡ group_with ss → ss ≡ []
  no_group [] h = refl
  no_group (s ∷ ss) h = absurd (cc)

  -- The group of one entry.
  abbrev group_for : SubKey → Subscription → Group
  group_for k u = record {
    category = k.category;
    options = u;
    sub_type = k.sub_type;
    symbols = k.symbol ∷ [];
  }

  first_group :
      (k : SubKey) (u : Subscription)
      → groups_alike (group_for k u ∷ []) ≡ group_with (with_symbol (is_alike (k, u)) [] k.symbol)
  first_group k u = elim (Bool-cases (is_alike (k, u))) [
    | inl e ↦ let (c, o, s) = (same_group_iff (group_of []) k u).0 e in rw e (rw (c, o, s) refl)
    | inr e ↦ rw e refl
  ]

  joined :
      (g : Group) (gs : List Group) (ss : List String) (s : String)
      → g ∷ gs ≡ group_with ss
      → record g { symbols = g.symbols ++ (s ∷ []) } ∷ gs ≡ group_with (ss ++ (s ∷ []))
  joined g gs [] s h = absurd (cc)
  joined g gs (x ∷ ss) s h =
      let first : g ≡ group_of (x ∷ ss) = cc in let rest : gs ≡ [] = cc in rw (first, rest) refl

  no_other : (g : Group) (gs : List Group) (ss : List String) → g ∷ gs ≡ group_with ss → gs ≡ []
  no_other g gs [] h = absurd (cc)
  no_other g gs (x ∷ ss) h = cc

  add_entry-alike :
      (k : SubKey) (u : Subscription) (gs : List Group) (ss : List String)
      → groups_alike gs ≡ group_with ss
      → groups_alike (add_entry k u gs) ≡ group_with (with_symbol (is_alike (k, u)) ss k.symbol)
  unfolding add_entry
  add_entry-alike k u [] ss h = rw (no_group ss h) (first_group k u)
  add_entry-alike k u (g ∷ gs) ss h = elim (Bool-cases (same_group g k u)) [
    | inl j ↦ elim (Bool-cases (is_alike (key_of g))) [
      | inl a ↦
          rw (j, a, sym (alike_group g k u a), j)
            (joined g (groups_alike gs) ss k.symbol (rw a at h))
      | inr a ↦ rw (j, a, sym (other_group g k u j), a) (rw a at h)
    ]
    | inr j ↦ elim (Bool-cases (is_alike (key_of g))) [
      | inl a ↦
          let alone : groups_alike gs ≡ [] = no_other g (groups_alike gs) ss (rw a at h) in
          let other : is_alike (k, u) ≡ false = sym (alike_group g k u a) ∙ j in
          let still : groups_alike (add_entry k u gs) ≡ [] =
            rw other at (add_entry-alike k u gs [] alone) in
          rw (j, a, other, still, sym alone) (rw a at h)
      | inr a ↦ rw (j, a) (add_entry-alike k u gs ss (rw a at h))
    ]
  ]

  group_entries-alike :
      (es : Subs) (gs : List Group) (ss : List String)
      → groups_alike gs ≡ group_with ss
      → groups_alike (group_entries es gs) ≡ group_with (ss ++ symbols_alike es)
  unfolding group_entries
  group_entries-alike [] gs ss h = rw (append_nil ss) h
  group_entries-alike ((k, u) ∷ es) gs ss h =
      let step = add_entry-alike k u gs ss h in
      elim (Bool-cases (is_alike (k, u))) [
        | inl e ↦
            rw (e, sym (append_one ss k.symbol (symbols_alike es)))
              (group_entries-alike es (add_entry k u gs) (ss ++ (k.symbol ∷ [])) (rw e at step))
        | inr e ↦ rw e (group_entries-alike es (add_entry k u gs) ss (rw e at step))
      ]

  asks_alike-request_of :
      (gs : List Group) → those asks_alike (map request_of gs) ≡ map request_of (groups_alike gs)
  asks_alike-request_of [] = refl
  asks_alike-request_of (g ∷ gs) = elim (Bool-cases (is_alike (key_of g))) [
    | inl e ↦ rw e (ap (λ rs. request_of g ∷ rs) (asks_alike-request_of gs))
    | inr e ↦ rw e (asks_alike-request_of gs)
  ]

  request_of-group_with : (ss : List String) → map request_of (group_with ss) ≡ request_with ss
  request_of-group_with [] = refl
  request_of-group_with (s ∷ ss) = refl

  few : (ss : List String) (gs : List Group) → Permᴰ (group_with ss) gs → gs ≡ group_with ss
  few [] gs p = nothing gs (sym (length-perm [] gs p))
  few (s ∷ ss) gs p = perm_singleton (group_of (s ∷ ss)) _ gs p refl

  -- Of all subscriptions with one category, options and type, whatever others are remembered, a
  -- replay makes a single request: it asks for the symbols of all of them, in the order in which
  -- the map is walked, and for that category, those options and that type alone. It makes no such
  -- request if there is no such subscription.
  pub replay-one_call :
      (w : WalkOrder) (subs : Subs)
      → ((gs : List Group) → Permᴰ gs (w.calls_order gs))
      → those asks_alike (replay w subs)
        ≡ request_with (symbols_alike (w.keys_order (entries_from [] subs)))
  unfolding replay
  replay-one_call w subs hc =
      let es = w.keys_order (entries_from [] subs) in
      let gs = group_entries es [] in
      let grouped : groups_alike gs ≡ group_with (symbols_alike es) =
        group_entries-alike es [] [] refl in
      let p = those-perm (λ g. is_alike (key_of g)) gs (w.calls_order gs) (hc gs) in
      let walked = few (symbols_alike es) (groups_alike (w.calls_order gs)) (rw grouped at p) in
      asks_alike-request_of (w.calls_order gs)
      ∙ ap (map request_of) walked
      ∙ request_of-group_with (symbols_alike es)
