-- ===== src/Streaming/Choosing.antt =====
-- src/sastt/application/streaming_pipeline.py: the choice of the event that a final segment replaces.
use speaker_attributed_stt.Prelude.{
  ◌≡◌, refl, sym, ◌∙◌, subst, String, true, false, ◌⊎◌, inl, inr, Option, none, some, List, [], ◌∷◌,
  All, All-map, arith, Bool-cases,
}
use speaker_attributed_stt.Streaming.{Emitted}
use speaker_attributed_stt.Streaming.Superseding.{
  Key, Wanted, Best, key_of, exceeds, is_passed, consider, best_from, best_emitted,
  superseded_event_id, contains,
}

-- The event is one of the list.
abbrev pub Among : Emitted → List Emitted → Type 0
Among e [] = ⊥
Among e (x ∷ xs) = (x ≡ e) ⊎ Among e xs

exceeds_self : (k : Key) → exceeds k k ≡ false
unfolding exceeds
exceeds_self k = ground arith

-- What does not exceed the old key does not exceed a key that exceeds the old one.
exceeds_trans :
    (k old new : Key) → exceeds k old ≡ false → exceeds new old ≡ true → exceeds k new ≡ false
unfolding exceeds
exceeds_trans k old new h more = ground arith

module _ (w : Wanted) (used : List String) where
  -- The event is passed over, or its key does not exceed the key.
  abbrev pub IsBehind : Key → Emitted → Type 0
  IsBehind k e = (is_passed w used e ≡ true) ⊎ (exceeds (key_of w e) k ≡ false)

  consider-keeps :
      (e : Emitted) (b : Best) (k : Key)
      → exceeds k b.best_key ≡ false
      → exceeds k (consider w used e b).best_key ≡ false
  unfolding consider
  consider-keeps e b k h = elim (Bool-cases (is_passed w used e)) [
    | inl p ↦ rw p h
    | inr p ↦ elim (Bool-cases (exceeds (key_of w e) b.best_key)) [
      | inl more ↦ rw (p, more) (exceeds_trans k b.best_key (key_of w e) h more)
      | inr less ↦ rw (p, less) h
    ]
  ]

  consider-IsBehind : (e : Emitted) (b : Best) → IsBehind (consider w used e b).best_key e
  unfolding consider
  consider-IsBehind e b = elim (Bool-cases (is_passed w used e)) [
    | inl p ↦ inl p
    | inr p ↦ elim (Bool-cases (exceeds (key_of w e) b.best_key)) [
      | inl more ↦ inr (rw (p, more) (exceeds_self (key_of w e)))
      | inr less ↦ inr (rw (p, less) less)
    ]
  ]

  best_from-keeps :
      (es : List Emitted) (b : Best) (k : Key)
      → exceeds k b.best_key ≡ false
      → exceeds k (best_from w used es b).best_key ≡ false
  unfolding best_from
  best_from-keeps [] b k h = h
  best_from-keeps (e ∷ es) b k h =
      best_from-keeps es (consider w used e b) k (consider-keeps e b k h)

  best_from-IsBehind :
      (es : List Emitted) (b : Best) → All (IsBehind (best_from w used es b).best_key) es
  unfolding best_from
  best_from-IsBehind [] b = tt
  best_from-IsBehind (e ∷ es) b = (
    elim (consider-IsBehind e b) [
      | inl p ↦ inl p
      | inr h ↦ inr (best_from-keeps es (consider w used e b) (key_of w e) h)
    ],
    best_from-IsBehind es (consider w used e b),
  )

  -- The best so far is the old one, or an event of the list with its key.
  abbrev Source : Best → Best → List Emitted → Type 0
  Source r b es =
      (r ≡ b)
      ⊎ ((e : Emitted) × Among e es
          × (r ≡ record { best = some e; best_key = key_of w e })
          × (is_passed w used e ≡ false))

  consider-Source : (e : Emitted) (b : Best) → Source (consider w used e b) b (e ∷ [])
  unfolding consider
  consider-Source e b = elim (Bool-cases (is_passed w used e)) [
    | inl p ↦ inl (rw p refl)
    | inr p ↦ elim (Bool-cases (exceeds (key_of w e) b.best_key)) [
      | inl more ↦ inr (e, inl refl, rw (p, more) refl, p)
      | inr less ↦ inl (rw (p, less) refl)
    ]
  ]

  best_from-Source : (es : List Emitted) (b : Best) → Source (best_from w used es b) b es
  unfolding best_from
  best_from-Source [] b = inl refl
  best_from-Source (e ∷ es) b = elim (best_from-Source es (consider w used e b)) [
    | inr (x, there, same, p) ↦ inr (x, inr there, same, p)
    | inl same ↦ elim (consider-Source e b) [
      | inl kept ↦ inl (same ∙ kept)
      | inr (x, here, took, p) ↦
          inr (x, inl (elim here [ inl q ↦ q | inr h ↦ absurd h ]), same ∙ took, p)
    ]
  ]

  -- What the choice of an id says: none is chosen only where every event is used or has no time in
  -- common; else it is the id of an event of the list that is not used and has, and no such event
  -- has a better key.
  abbrev pub Chosen : List Emitted → Option String → Type 0
  Chosen es none = All (λ e. is_passed w used e ≡ true) es
  Chosen es (some id) =
      (e : Emitted) × Among e es
      × (e.event_id ≡ id)
      × (is_passed w used e ≡ false)
      × All (IsBehind (key_of w e)) es

  abbrev no_best : Best
  no_best = record { best = none; best_key = record { same = false; overlap = 0 } }

  behind_none : (e : Emitted) → IsBehind no_best.best_key e → is_passed w used e ≡ true
  unfolding exceeds is_passed
  behind_none e (inl p) = p
  behind_none e (inr h) = ground arith

  -- The choice made of the best that the loop ended with.
  id_of : Best → Option String
  id_of b = elim b.best [ none ↦ none | some e ↦ some e.event_id ]

  superseded-eq :
      (es : List Emitted) → superseded_event_id w used es ≡ id_of (best_from w used es no_best)
  unfolding superseded_event_id best_emitted id_of
  superseded-eq es = refl

  Chosen-of :
      (es : List Emitted) (r : Best)
      → Source r no_best es
      → All (IsBehind r.best_key) es
      → Chosen es (id_of r)
  unfolding id_of
  Chosen-of es r (inl same) behind =
      subst (λ b. All (IsBehind b.best_key) es → Chosen es (id_of b)) (sym same)
        (All-map (IsBehind no_best.best_key) (λ e. is_passed w used e ≡ true) es behind_none) behind
  Chosen-of es r (inr (e, there, same, p)) behind =
      subst (λ b. All (IsBehind b.best_key) es → Chosen es (id_of b)) (sym same)
        (λ h. (e, there, refl, p, h)) behind

  -- The event that a final segment replaces: none only where each provisional event is already
  -- replaced or has no time in common with the segment; else one of the events, not yet replaced and
  -- with time in common, such that no other such event is better: by the track, the segment's own
  -- first, and then by the time in common.
  pub superseded_event_id-Chosen : (es : List Emitted) → Chosen es (superseded_event_id w used es)
  superseded_event_id-Chosen es = subst (Chosen es) (sym (superseded-eq es)) (
      Chosen-of es (best_from w used es no_best) (best_from-Source es no_best)
        (best_from-IsBehind es no_best))

  pub superseded-fresh :
      (es : List Emitted) (o : Option String)
      → Chosen es o
      → (id : String) → o ≡ some id
      → contains used id ≡ false
  unfolding is_passed
  superseded-fresh es none h id e = cc
  superseded-fresh es (some x) (e, there, named, p, behind) id same =
      let free : contains used e.event_id ≡ false = ground arith in
      let x_id : x ≡ id = cc in subst (λ y. contains used y ≡ false) (named ∙ x_id) free
