-- ===== src/Session/Creating/Sink.antt =====
-- The sink of unattributed words: it is made once, outside the bound, and then takes a place.
use speaker_attributed_stt.Session.Creating.Roster.{
  sink_count, registered-listed, registered-count, IsRoster,
}
use speaker_attributed_stt.Prelude.{
  ◌+◌, ◌≤◌, ◌≡◌, refl, sym, ap, subst, ◌∙◌, String, false, inl, inr, none, some, arith,
  Option-cases, ◌⊎◌,
}
use speaker_attributed_stt.Prelude.Dict.{has}
use speaker_attributed_stt.Errors.{ok, err, invalid_state_transition_error}
use speaker_attributed_stt.Identity.{make_machine, transition}
use speaker_attributed_stt.Session.{
  SessionSpeaker, Session, is_merged, active_speaker_count, can_admit_speaker, speaker_at,
}
use speaker_attributed_stt.Session.Creating.{
  new_speaker_id, registered, create_temporary_speaker, new_sink, existing_or_new_sink,
  unattributed_speaker,
}

module _ {V F : Type 0} where
  abbrev with_sink : Session V F → SessionSpeaker V F → Session V F
  with_sink s p = record (registered s p) { unattributed_id = some p.session_speaker_id }

  new_sink-eq-ok :
      (s t : Session V F) (ulid : String) (p : SessionSpeaker V F)
      → new_sink ulid s ≡ (ok p, t)
      → (has s.speakers p.session_speaker_id ≡ false)
        × (p.session_speaker_id ≡ new_speaker_id ulid)
        × (is_merged p ≡ false)
        × (t ≡ with_sink s p)
  unfolding new_sink make_machine transition
  new_sink-eq-ok s t ulid p h = ground arith

  with_sink-count :
      (s : Session V F) (p : SessionSpeaker V F)
      → active_speaker_count (with_sink s p) ≡ active_speaker_count (registered s p)
  unfolding active_speaker_count
  with_sink-count s p = refl

  new_sink-IsRoster :
      (s t : Session V F) (ulid : String) (p : SessionSpeaker V F)
      → IsRoster s
      → s.unattributed_id ≡ none
      → new_sink ulid s ≡ (ok p, t)
      → IsRoster t × (t.unattributed_id ≡ some p.session_speaker_id)
  new_sink-IsRoster s t ulid p v none_yet h =
      let (new, _, free, made) = new_sink-eq-ok s t ulid p h in
      let (reg, nodup) = registered-listed s p new v in
      let before : sink_count s.unattributed_id ≡ 0 = ap sink_count none_yet in
      (
        subst IsRoster (sym made) (record {
          registered_ids = reg;
          no_duplicates = nodup;
          within = omega (
            arith,
            with_sink-count s p,
            registered-count s p new free v.registered_ids,
            before,
            v.within,
          );
        }),
        rw made refl,
      )

  unattributed-none :
      (s : Session V F) (ulid : String)
      → s.unattributed_id ≡ none
      → unattributed_speaker ulid s ≡ new_sink ulid s
  unfolding unattributed_speaker
  unattributed-none s ulid h = ap (λ o. existing_or_new_sink o ulid s) h

  unattributed-some :
      (s : Session V F) (ulid id : String)
      → s.unattributed_id ≡ some id
      → unattributed_speaker ulid s ≡ (speaker_at s.speakers id, s)
  unfolding unattributed_speaker
  unattributed-some s ulid id h = ap (λ o. existing_or_new_sink o ulid s) h

  -- The sink is made once and is not bound by the number of speakers: a call that succeeds keeps
  -- the roster, and where the session has a sink already it changes nothing.
  pub unattributed_speaker-IsRoster :
      (s t : Session V F) (ulid : String) (p : SessionSpeaker V F)
      → IsRoster s
      → unattributed_speaker ulid s ≡ (ok p, t)
      → IsRoster t × ((s.unattributed_id ≡ none) ⊎ (t ≡ s))
  unattributed_speaker-IsRoster s t ulid p v h = elim (Option-cases s.unattributed_id) [
    | inl none_yet ↦
        let h' : new_sink ulid s ≡ (ok p, t) = sym (unattributed-none s ulid none_yet) ∙ h in
        ((new_sink-IsRoster s t ulid p v none_yet h').0, inl none_yet)
    | inr (id, sink) ↦
        let same : t ≡ s = cc (h, unattributed-some s ulid id sink) in
        (subst IsRoster (sym same) v, inr same)
  ]

  full_refuses :
      (t : Session V F) (next : String)
      → t.config.max_session_speakers ≤ active_speaker_count t
      → create_temporary_speaker next t ≡ (err invalid_state_transition_error, t)
  unfolding create_temporary_speaker can_admit_speaker
  full_refuses t next h = ground arith

  -- In a session on a roster that has no sink yet and room for one speaker more, the sink takes that
  -- place: once `unattributed_speaker` has made it, no temporary speaker can be created.
  pub sink_takes_a_place :
      (s t : Session V F) (ulid next : String) (p : SessionSpeaker V F)
      → IsRoster s
      → s.unattributed_id ≡ none
      → active_speaker_count s + 1 ≡ s.config.max_session_speakers
      → unattributed_speaker ulid s ≡ (ok p, t)
      → create_temporary_speaker next t ≡ (err invalid_state_transition_error, t)
  sink_takes_a_place s t ulid next p v none_yet one_left h =
      let h' : new_sink ulid s ≡ (ok p, t) = sym (unattributed-none s ulid none_yet) ∙ h in
      let (new, _, free, made) = new_sink-eq-ok s t ulid p h' in
      full_refuses t next (
        rw made (
          omega
            (arith, with_sink-count s p, registered-count s p new free v.registered_ids, one_left)))
