-- ===== src/Session/Creating/Roster.antt =====
-- The roster: ids are registered once and for good, and the session stays within its bound.
use speaker_attributed_stt.Prelude.{
  ℕ, ◌+◌, ◌≤◌, ◌<◌, ◌≡◌, refl, sym, ap, subst, ◌∙◌, String, true, false, inl, inr, Option, none,
  some, List, [], ◌∷◌, ◌++◌, arith, str_eq, eq_iff, length, length-append, All, All-append, All-map,
  Bool-cases,
}
use speaker_attributed_stt.Prelude.Dict.{Dict, put, has, is_some, put_self, put_same, put_other}
use speaker_attributed_stt.Errors.{ok}
use speaker_attributed_stt.Identity.{make_machine}
use speaker_attributed_stt.Session.{
  SessionSpeaker, Session, is_merged, active_in, keep_active, active_speaker_count,
  can_admit_speaker,
}
use speaker_attributed_stt.Session.Creating.{
  new_speaker_id, registered, create_session_speaker, create_temporary_speaker,
}

abbrev pub NoDuplicates : List String → Type 0
NoDuplicates [] = Unit
NoDuplicates (id ∷ ids) = All (λ j. str_eq j id ≡ false) ids × NoDuplicates ids

NoDuplicates-append :
    (ids : List String) (id : String)
    → NoDuplicates ids
    → All (λ j. str_eq id j ≡ false) ids
    → NoDuplicates (ids ++ id ∷ [])
NoDuplicates-append [] id h new = (tt, tt)
NoDuplicates-append (j ∷ ids) id h new = (
  All-append (λ k. str_eq k j ≡ false) ids (id ∷ []) h.0 (new.0, tt),
  NoDuplicates-append ids id h.1 new.1,
)

-- Whether the session has its sink, as a number.
abbrev pub sink_count : Option String → ℕ
sink_count none = 0
sink_count (some id) = 1

module _ {V F : Type 0} where
  pub record IsRoster (s : Session V F) : Type 0 where
    pub registered_ids : All (λ id. has s.speakers id ≡ true) s.order
    pub no_duplicates : NoDuplicates s.order
    pub within :
        active_speaker_count s ≤ s.config.max_session_speakers + sink_count s.unattributed_id

  absent :
      (d : Dict (SessionSpeaker V F)) (id : String) (ids : List String)
      → has d id ≡ false
      → All (λ j. has d j ≡ true) ids
      → All (λ j. str_eq id j ≡ false) ids
  absent d id [] new h = tt
  absent d id (j ∷ ids) new h = (differs, absent d id ids new h.1)
    where
      differs : str_eq id j ≡ false
      differs = elim (Bool-cases (str_eq id j)) [
        | inl same ↦ let e = (eq_iff id j).0 same in cc
        | inr other ↦ other
      ]

  active_in-put :
      (d : Dict (SessionSpeaker V F)) (id : String) (p : SessionSpeaker V F) (ids : List String)
      → All (λ j. str_eq id j ≡ false) ids
      → active_in (put d id p) ids ≡ active_in d ids
  unfolding active_in
  active_in-put d id p [] h = refl
  active_in-put d id p (j ∷ ids) h = cc (put_other d id p j h.0, active_in-put d id p ids h.1)

  keep_active-append :
      (o : Option (SessionSpeaker V F)) (xs ys : List (SessionSpeaker V F))
      → keep_active o (xs ++ ys) ≡ keep_active o xs ++ ys
  unfolding keep_active
  keep_active-append none xs ys = refl
  keep_active-append (some p) xs ys = ground arith

  active_in-append :
      (d : Dict (SessionSpeaker V F)) (xs ys : List String)
      → active_in d (xs ++ ys) ≡ active_in d xs ++ active_in d ys
  unfolding active_in
  active_in-append d [] ys = refl
  active_in-append d (x ∷ xs) ys =
      ap (keep_active (d x)) (active_in-append d xs ys)
      ∙ keep_active-append (d x) (active_in d xs) (active_in d ys)

  has-put :
      (d : Dict (SessionSpeaker V F)) (id : String) (p : SessionSpeaker V F) (j : String)
      → has d j ≡ true
      → has (put d id p) j ≡ true
  has-put d id p j h = elim (Bool-cases (str_eq id j)) [
    | inl same ↦ ap is_some (put_same d id p j same)
    | inr other ↦ ap is_some (put_other d id p j other) ∙ h
  ]

  active_in-new :
      (d : Dict (SessionSpeaker V F)) (id : String) (p : SessionSpeaker V F)
      → is_merged p ≡ false
      → length (active_in (put d id p) (id ∷ [])) ≡ 1
  unfolding active_in keep_active
  active_in-new d id p free = rw (put_self d id p) (rw free refl)

  -- What registering a speaker under an unused id does to the roster.
  pub registered-count :
      (s : Session V F) (p : SessionSpeaker V F)
      → has s.speakers p.session_speaker_id ≡ false
      → is_merged p ≡ false
      → All (λ id. has s.speakers id ≡ true) s.order
      → active_speaker_count (registered s p) ≡ active_speaker_count s + 1
  unfolding active_speaker_count
  registered-count s p new free h =
      let id : String = p.session_speaker_id in
      let d : Dict (SessionSpeaker V F) = put s.speakers id p in
      omega (
        arith,
        ap length (active_in-append d s.order (id ∷ [])),
        length-append (active_in d s.order) (active_in d (id ∷ [])),
        ap length (active_in-put s.speakers id p s.order (absent s.speakers id s.order new h)),
        active_in-new s.speakers id p free,
      )

  pub registered-listed :
      (s : Session V F) (p : SessionSpeaker V F)
      → has s.speakers p.session_speaker_id ≡ false
      → IsRoster s
      → All
          (λ id. has (put s.speakers p.session_speaker_id p) id ≡ true)
          (s.order ++ p.session_speaker_id ∷ [])
        × NoDuplicates (s.order ++ p.session_speaker_id ∷ [])
  registered-listed s p new v =
      let id : String = p.session_speaker_id in
      (
        All-append (λ j. has (put s.speakers id p) j ≡ true) s.order (id ∷ [])
            (All-map (λ j. has s.speakers j ≡ true) (λ j. has (put s.speakers id p) j ≡ true)
              s.order (has-put s.speakers id p) v.registered_ids)
            (ap is_some (put_self s.speakers id p), tt),
        NoDuplicates-append s.order id v.no_duplicates
            (absent s.speakers id s.order new v.registered_ids),
      )

  counted :
      (s t : Session V F)
      → t.speakers ≡ s.speakers
      → t.order ≡ s.order
      → active_speaker_count t ≡ active_speaker_count s
  unfolding active_speaker_count
  counted s t es eo = cc

  create_session_speaker-eq-ok :
      (s t : Session V F) (cluster label : Option String) (ulid : String) (p : SessionSpeaker V F)
      → create_session_speaker cluster label ulid s ≡ (ok p, t)
      → (active_speaker_count s < s.config.max_session_speakers)
        × (has s.speakers p.session_speaker_id ≡ false)
        × (p.session_speaker_id ≡ new_speaker_id ulid)
        × (is_merged p ≡ false)
        × (t ≡ registered (record s { label_counter = s.label_counter + 1 }) p)
  unfolding create_session_speaker make_machine
  create_session_speaker-eq-ok s t cluster label ulid p h = ground arith

  create_temporary_speaker-eq-ok :
      (s t : Session V F) (ulid : String) (p : SessionSpeaker V F)
      → create_temporary_speaker ulid s ≡ (ok p, t)
      → (active_speaker_count s < s.config.max_session_speakers)
        × (has s.speakers p.session_speaker_id ≡ false)
        × (p.session_speaker_id ≡ new_speaker_id ulid)
        × (is_merged p ≡ false)
        × (t ≡ registered (record s { temporary_counter = s.temporary_counter + 1 }) p)
  unfolding create_temporary_speaker make_machine can_admit_speaker
  create_temporary_speaker-eq-ok s t ulid p h = ground arith

  -- The counters do not matter to the roster.
  abbrev recounted : Session V F → ℕ → ℕ → Session V F
  recounted s n m = record s { label_counter = n; temporary_counter = m }

  recounted-count :
      (s : Session V F) (n m : ℕ) → active_speaker_count (recounted s n m) ≡ active_speaker_count s
  unfolding active_speaker_count
  recounted-count s n m = refl

  -- Registering a new speaker with room for it keeps the roster.
  admitted-IsRoster :
      (s : Session V F) (n m : ℕ) (p : SessionSpeaker V F)
      → has s.speakers p.session_speaker_id ≡ false
      → is_merged p ≡ false
      → active_speaker_count s < s.config.max_session_speakers
      → IsRoster s
      → IsRoster (registered (recounted s n m) p)
        × (active_speaker_count (registered (recounted s n m) p) ≤ s.config.max_session_speakers)
  admitted-IsRoster s n m p new free room v =
      let (reg, nodup) = registered-listed s p new v in
      let one_more = registered-count (recounted s n m) p new free v.registered_ids in
      let bound : active_speaker_count (registered (recounted s n m) p)
          ≤ s.config.max_session_speakers =
        omega (arith, one_more, recounted-count s n m) in
      (record { registered_ids = reg; no_duplicates = nodup; within = omega (arith, bound) }, bound)

  -- When a session on a roster creates a speaker, the new id is one that it never had and comes last
  -- in the order, the roster is kept, so every id is registered once, and afterwards no more speakers
  -- are active than the configured bound.
  pub create_session_speaker-IsRoster :
      (s t : Session V F) (cluster label : Option String) (ulid : String) (p : SessionSpeaker V F)
      → IsRoster s
      → create_session_speaker cluster label ulid s ≡ (ok p, t)
      → IsRoster t
        × (has s.speakers p.session_speaker_id ≡ false)
        × (t.order ≡ s.order ++ p.session_speaker_id ∷ [])
        × (active_speaker_count t ≤ t.config.max_session_speakers)
  create_session_speaker-IsRoster s t cluster label ulid p v h =
      let (room, new, _, free, made) = create_session_speaker-eq-ok s t cluster label ulid p h in
      let (roster, bound) =
        admitted-IsRoster s (s.label_counter + 1) s.temporary_counter p new free room v in
      (subst IsRoster (sym made) roster, new, rw made refl, rw made bound)

  -- The same for a temporary speaker.
  pub create_temporary_speaker-IsRoster :
      (s t : Session V F) (ulid : String) (p : SessionSpeaker V F)
      → IsRoster s
      → create_temporary_speaker ulid s ≡ (ok p, t)
      → IsRoster t
        × (has s.speakers p.session_speaker_id ≡ false)
        × (t.order ≡ s.order ++ p.session_speaker_id ∷ [])
        × (active_speaker_count t ≤ t.config.max_session_speakers)
  create_temporary_speaker-IsRoster s t ulid p v h =
      let (room, new, _, free, made) = create_temporary_speaker-eq-ok s t ulid p h in
      let (roster, bound) =
        admitted-IsRoster s s.label_counter (s.temporary_counter + 1) p new free room v in
      (subst IsRoster (sym made) roster, new, rw made refl, rw made bound)
