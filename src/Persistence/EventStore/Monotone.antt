-- ===== src/Persistence/EventStore/Monotone.antt =====
-- The events of a session are in the order of their numbers, and sessions do not mix.
use speaker_attributed_stt.Prelude.{
  ℕ, zero, suc, ◌-◌, ◌≤◌, ◌<◌, ◌≡◌, ◌≢◌, sym, ap, subst, String, true, false, inl, inr, List, [],
  ◌∷◌, ◌++◌, arith, ltb, str_eq, eq_iff, length, length-drop, drop, last?, Bool-cases,
}
use speaker_attributed_stt.Prelude.Dict.{put, put_same, put_other}
use speaker_attributed_stt.Errors.{ok}
use speaker_attributed_stt.Events.Log.{ServerEvent}
use speaker_attributed_stt.Persistence.EventStore.{
  EventStore, make_store, or_empty, events_of, not_after, trimmed, append,
}

module _ {P : Type 0} where
  -- The numbers grow strictly, from above `n` on.
  abbrev pub Grows : ℕ → List (ServerEvent P) → Type 0
  Grows n [] = Unit
  Grows n (e ∷ es) = (n < e.sequence_number) × Grows e.sequence_number es

  Grows-weaken : (m n : ℕ) (es : List (ServerEvent P)) → m ≤ n → Grows n es → Grows m es
  Grows-weaken m n [] le h = tt
  Grows-weaken m n (e ∷ es) le h = (omega arith, h.1)

  -- Behind a list that grows, what `append` accepts lies above all of it.
  Grows-last :
      (n : ℕ) (f : ServerEvent P) (es : List (ServerEvent P)) (e : ServerEvent P)
      → Grows n (f ∷ es)
      → not_after (last? (f ∷ es)) e ≡ false
      → n < e.sequence_number
  unfolding not_after
  Grows-last n f [] e h after = ground arith
  Grows-last n f (g ∷ es) e h after =
      let above = Grows-last f.sequence_number g es e h.1 after in omega arith

  Grows-append :
      (n : ℕ) (es : List (ServerEvent P)) (e : ServerEvent P)
      → Grows n es
      → n < e.sequence_number
      → not_after (last? es) e ≡ false
      → Grows n (es ++ e ∷ [])
  unfolding not_after
  Grows-append n [] e h lt after = (lt, tt)
  Grows-append n (f ∷ []) e h lt after = (h.0, (ground arith, tt))
  Grows-append n (f ∷ g ∷ es) e h lt after = (
    h.0,
    Grows-append f.sequence_number (g ∷ es) e h.1 (Grows-last f.sequence_number g es e h.1 after)
        after,
  )

  Grows-drop : (k n : ℕ) (es : List (ServerEvent P)) → Grows n es → Grows n (drop k es)
  Grows-drop zero n es h = h
  Grows-drop (suc k) n [] h = tt
  Grows-drop (suc k) n (e ∷ es) h =
      Grows-weaken n e.sequence_number (drop k es) (omega arith)
        (Grows-drop k e.sequence_number es h.1)

  abbrev pub IsIncreasing : List (ServerEvent P) → Type 0
  IsIncreasing [] = Unit
  IsIncreasing (e ∷ es) = Grows e.sequence_number es

  IsIncreasing-append :
      (es : List (ServerEvent P)) (e : ServerEvent P)
      → IsIncreasing es
      → not_after (last? es) e ≡ false
      → IsIncreasing (es ++ e ∷ [])
  IsIncreasing-append [] e h after = tt
  IsIncreasing-append (f ∷ []) e h after = (unfold not_after in ground arith, tt)
  IsIncreasing-append (f ∷ g ∷ es) e h after =
      Grows-append f.sequence_number (g ∷ es) e h (Grows-last f.sequence_number g es e h after)
        after

  Grows-IsIncreasing : (n : ℕ) (es : List (ServerEvent P)) → Grows n es → IsIncreasing es
  Grows-IsIncreasing n [] h = tt
  Grows-IsIncreasing n (e ∷ es) h = h.1

  IsIncreasing-drop :
      (k : ℕ) (es : List (ServerEvent P)) → IsIncreasing es → IsIncreasing (drop k es)
  IsIncreasing-drop zero es h = h
  IsIncreasing-drop (suc k) [] h = tt
  IsIncreasing-drop (suc k) (e ∷ es) h =
      Grows-IsIncreasing e.sequence_number (drop k es) (Grows-drop k e.sequence_number es h)

  trimmed-IsIncreasing :
      (retention : ℕ) (es : List (ServerEvent P))
      → IsIncreasing es
      → IsIncreasing (trimmed retention es)
  unfolding trimmed
  trimmed-IsIncreasing retention es h = elim (Bool-cases (ltb retention (length es))) [
    | inl over ↦ rw over (IsIncreasing-drop (length es - retention) es h)
    | inr fits ↦ rw fits h
  ]

  length-trimmed :
      (retention : ℕ) (es : List (ServerEvent P)) → length (trimmed retention es) ≤ retention
  unfolding trimmed
  length-trimmed retention es = ground (arith, length-drop (length es - retention) es)

  -- In every session the numbers grow, and there are no more events than the retention allows.
  pub record IsOrdered (s : EventStore P) : Type 0 where
    pub increasing : (session : String) → IsIncreasing (events_of s session)
    pub bounded : (session : String) → length (events_of s session) ≤ s.retention

  pub make_store-IsOrdered : (retention : ℕ) → IsOrdered (make_store {P = P} retention)
  make_store-IsOrdered retention = record {
    increasing = λ session. tt;
    bounded = λ session. omega arith;
  }

  abbrev stored : EventStore P → ServerEvent P → EventStore P
  stored s e = record s {
    events = put s.events e.session_id (trimmed s.retention (events_of s e.session_id ++ e ∷ []));
    keys = (e.session_id, e.event_id, e.revision) ∷ s.keys;
  }

  append-eq-ok :
      (s s' : EventStore P) (e out : ServerEvent P)
      → append s e ≡ ok (out, s')
      → (out ≡ e) × (not_after (last? (events_of s e.session_id)) e ≡ false) × (s' ≡ stored s e)
  unfolding append
  append-eq-ok s s' e out h = ground arith

  events_of-stored_self :
      (s : EventStore P) (e : ServerEvent P) (session : String)
      → str_eq e.session_id session ≡ true
      → events_of (stored s e) session ≡ trimmed s.retention (events_of s e.session_id ++ e ∷ [])
  events_of-stored_self s e session same =
      ap or_empty (put_same s.events e.session_id _ session same)

  events_of-stored_other :
      (s : EventStore P) (e : ServerEvent P) (session : String)
      → str_eq e.session_id session ≡ false
      → events_of (stored s e) session ≡ events_of s session
  events_of-stored_other s e session other =
      ap or_empty (put_other s.events e.session_id _ session other)

  stored-IsOrdered :
      (s : EventStore P) (e : ServerEvent P)
      → not_after (last? (events_of s e.session_id)) e ≡ false
      → IsOrdered s
      → IsOrdered (stored s e)
  stored-IsOrdered s e after v = record {
    increasing = λ session. elim (Bool-cases (str_eq e.session_id session)) [
      | inl same ↦ subst IsIncreasing (sym (events_of-stored_self s e session same)) (
          trimmed-IsIncreasing s.retention (events_of s e.session_id ++ e ∷ [])
            (IsIncreasing-append (events_of s e.session_id) e (v.increasing e.session_id) after))
      | inr other ↦
          subst IsIncreasing (sym (events_of-stored_other s e session other)) (v.increasing session)
    ];
    bounded = λ session. elim (Bool-cases (str_eq e.session_id session)) [
      | inl same ↦
          rw (events_of-stored_self s e session same)
            (length-trimmed s.retention (events_of s e.session_id ++ e ∷ []))
      | inr other ↦ rw (events_of-stored_other s e session other) (v.bounded session)
    ];
  }

  -- A store whose sessions are in order and within the retention keeps them so when it accepts an
  -- event; it returns the event, and the events of another session are as before.
  pub append-IsOrdered :
      (s s' : EventStore P) (e out : ServerEvent P) (other : String)
      → IsOrdered s
      → append s e ≡ ok (out, s')
      → e.session_id ≢ other
      → IsOrdered s' × (out ≡ e) × (events_of s' other ≡ events_of s other)
  append-IsOrdered s s' e out other v h differs =
      let (same, after, made) = append-eq-ok s s' e out h in
      (
        subst IsOrdered (sym made) (stored-IsOrdered s e after v),
        same,
        rw made (events_of-stored_other s e other (ground (arith, eq_iff e.session_id other))),
      )
