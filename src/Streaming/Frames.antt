-- ===== src/Streaming/Frames.antt =====
-- What every method of a streaming session keeps: a property of the session that the log's calls,
-- the stages of the pipeline and the session's own notes keep is kept by rolling steps, by the final
-- pass and by the methods that start and end the session.
use speaker_attributed_stt.Errors.{Result-cases, ok}
use speaker_attributed_stt.Session.Resolution.{drain_label_changes}
use speaker_attributed_stt.Prelude.{
  arith, inl, inr, ◌⊎◌, ◌≡◌, ◌+◌, max, length, ◌==◌, ℕ, Bool, true, false, Option, none, some, List,
  [], ◌∷◌,
}
use speaker_attributed_stt.Exec.{Exec}
use speaker_attributed_stt.Exec.Preserves.{Preserves}
use speaker_attributed_stt.Audio.Interval.{TimeInterval, make}
use speaker_attributed_stt.Audio.Time.{samples_to_ms}
use speaker_attributed_stt.Prelude.Int.{pos}
use speaker_attributed_stt.Session.{Session, LabelChange}
use speaker_attributed_stt.Transcript.{TranscriptSegment}
use speaker_attributed_stt.Events.Log.{
  ServerEvent, SessionEventLog, append, Append, transcript_provisional,
}
use speaker_attributed_stt.Streaming.{SessionState, Emitted, Payload, transcript, Ports, Stream}
use speaker_attributed_stt.Streaming.Rolling.{
  emit, plain, revision_of, stage, now_ms, drain_label_revisions, emit_provisional, window_buffer,
  window_of, process, maybe_process, emit_revisions, emit_segments, transcribe_all, emit_closed,
  process_window, process_if, latest_end, note_emitted,
}
use speaker_attributed_stt.Streaming.Finishing.{start}

module _ {A V F G W : Type 0} (p : Ports A V F G W) where
  -- A call of the log changes the log only, and only when it succeeds.
  pub emit-log :
      (a : Append (Payload F)) (s : Stream A V F W)
      → ((emit p a s).1 ≡ s)
        ⊎ ((made : ServerEvent (Payload F) × SessionEventLog (Payload F)) × (append s.log a
                (p.clock (s.log.sequence + 1))
                (p.new_event_id (s.log.sequence + 1))
              ≡ ok made)
            × ((emit p a s).1 ≡ record s { log = made.1 }))
  unfolding emit
  emit-log a s =
      elim (Result-cases
        (append s.log a (p.clock (s.log.sequence + 1)) (p.new_event_id (s.log.sequence + 1)))) [
          | inl (e, q) ↦ inl (rw (q, emit))
          | inr (made, q) ↦ inr (made, q, rw (q, emit))
        ]

module _ {A V F G W : Type 0} (p : Ports A V F G W) (P : Stream A V F W → Type 0) where
  pub record IsFrame : Type 0 where
    pub emits : (a : Append (Payload F)) → Preserves P (emit p a)
    pub stages :
        (s : Stream A V F W) (speakers : Session V F) (pipeline : W)
        → P s
        → P (record s { speakers = speakers; pipeline = pipeline })
    pub notes :
        (s : Stream A V F W) (emitted : List Emitted) (until last : ℕ)
        → P s
        → P (record s { emitted = emitted; emitted_until_ms = until; last_process_ms = last })
    pub moves :
        (s : Stream A V F W) (state : SessionState) (done : Bool)
        → P s
        → P (record s { state_machine = state; is_finalized = done })

  module _ (k : IsFrame) where
    pub stage-Preserves : {X : Type 0} (m : Exec (Session V F × W) X) → Preserves P (stage p m)
    unfolding stage
    stage-Preserves m s h =
        k.stages s (m (s.speakers, s.pipeline)).1.0 (m (s.speakers, s.pipeline)).1.1 h

    emit_revisions-Preserves : (changes : List LabelChange) → Preserves P (emit_revisions p changes)
    unfolding emit_revisions
    emit_revisions-Preserves [] s h = h
    emit_revisions-Preserves (change ∷ rest) s h =
        let a = revision_of p change s.config.model_versions s.config.config_version in
        let h1 = k.emits a s h in
        let h2 = emit_revisions-Preserves rest (emit p a s).1 h1 in ground arith

    pub drain-Preserves : Preserves P (drain_label_revisions p)
    unfolding drain_label_revisions drain_label_changes stage
    drain-Preserves s h = emit_revisions-Preserves _ _ (k.stages s _ s.pipeline h)

    emit_segments-Preserves : (gs : List (TranscriptSegment F)) → Preserves P (emit_segments p gs)
    unfolding emit_segments
    emit_segments-Preserves [] s h = h
    emit_segments-Preserves (g ∷ rest) s h =
        let a =
          plain p transcript_provisional (transcript g) s.config.model_versions
            s.config.config_version in
        let h1 = k.emits a s h in
        elim (Result-cases (emit p a s).0) [
          | inl (e, q) ↦ rw q h1
          | inr (event, q) ↦ rw q (
              let s1 = (emit p a s).1 in
              let s2 = note_emitted p g event s1 in
              let h2 : P s2 = k.notes s1 s2.emitted s1.emitted_until_ms s1.last_process_ms h1 in
              let h3 = emit_segments-Preserves rest s2 h2 in ground arith)
        ]

    emit_provisional-Preserves : (gs : List G) → Preserves P (emit_provisional p gs)
    unfolding emit_provisional
    emit_provisional-Preserves [] s h = h
    emit_provisional-Preserves (g ∷ gs) s h =
        let h1 = stage-Preserves (p.fuse (g ∷ gs)) s h in
        elim (Result-cases (stage p (p.fuse (g ∷ gs)) s).0) [
          | inl (e, q) ↦ rw q h1
          | inr (segments, q) ↦ rw q (emit_segments-Preserves segments _ h1)
        ]

    transcribe_all-Preserves :
        (chunk : List A) (start : ℕ) (force : Bool) (until : ℕ) (closed : List TimeInterval)
        → Preserves P (transcribe_all p chunk start force until closed)
    unfolding transcribe_all
    transcribe_all-Preserves chunk start force until [] s h = h
    transcribe_all-Preserves chunk start force until (i ∷ rest) s h =
        elim (Result-cases (make (pos (max i.start_ms until)) (pos i.end_ms))) [
          | inl (e, q) ↦ rw q h
          | inr (pending, q) ↦ rw q (
              let m = p.transcribe chunk start force pending in
              let h1 = stage-Preserves m s h in
              let h2 = transcribe_all-Preserves chunk start force until rest (stage p m s).1 h1 in
              ground arith)
        ]

    emit_closed-Preserves :
        (chunk : List A) (start : ℕ) (force : Bool) (closed : List TimeInterval)
        → Preserves P (emit_closed p chunk start force closed)
    unfolding emit_closed
    emit_closed-Preserves chunk start force [] s h = drain-Preserves s h
    emit_closed-Preserves chunk start force (i ∷ closed) s h =
        let m = transcribe_all p chunk start force s.emitted_until_ms (i ∷ closed) in
        let h1 = transcribe_all-Preserves chunk start force s.emitted_until_ms (i ∷ closed) s h in
        elim (Result-cases (m s).0) [
          | inl (e, q) ↦ rw q h1
          | inr (groups, q) ↦ rw q (
              let s1 = (m s).1 in
              let h2 = emit_provisional-Preserves groups s1 h1 in
              let s2 = (emit_provisional p groups s1).1 in
              let h3 =
                k.notes s2 s2.emitted (latest_end p s2.emitted_until_ms (i ∷ closed))
                  s2.last_process_ms h2 in
              let h4 = drain-Preserves _ h3 in ground arith)
        ]

    process_window-Preserves :
        (force : Bool) (window : Option (List A × ℕ)) → Preserves P (process_window p force window)
    unfolding process_window now_ms
    process_window-Preserves force none s h = h
    process_window-Preserves force (some (chunk, start)) s h =
        let m = p.hear chunk start in
        let h1 = stage-Preserves m s h in
        let s1 = (stage p m s).1 in
        elim (Result-cases (stage p m s).0) [
          | inl (e, q) ↦ rw q h1
          | inr (speech, q) ↦
              rw q
                (elim (Result-cases
                  (samples_to_ms (pos s1.total_samples) (pos s1.config.sample_rate))) [
                    | inl (e, r) ↦ rw r h1
                    | inr (now, r) ↦ rw r (emit_closed-Preserves chunk start force _ s1 h1)
                  ])
        ]

    window_of-Preserves : (silent : Bool) → Preserves P (window_of p silent)
    unfolding window_of
    window_of-Preserves true s h = h
    window_of-Preserves false s h = ground arith

    pub process-Preserves : (force : Bool) → Preserves P (process p force)
    unfolding process now_ms window_buffer
    process-Preserves force s h =
        elim (Result-cases (samples_to_ms (pos s.total_samples) (pos s.config.sample_rate))) [
          | inl (e, q) ↦ rw q h
          | inr (now, q) ↦ rw q (
              let s1 = record s { last_process_ms = now } in
              let h1 : P s1 = k.notes s s.emitted s.emitted_until_ms now h in
              let m = window_of p (length s1.samples == 0) in
              let h2 = window_of-Preserves (length s1.samples == 0) s1 h1 in
              elim (Result-cases (m s1).0) [
                | inl (e, r) ↦ rw r h2
                | inr (window, r) ↦ rw r (process_window-Preserves force window (m s1).1 h2)
              ])
        ]

    process_if-Preserves : (due : Bool) → Preserves P (process_if p due)
    unfolding process_if
    process_if-Preserves true s h = process-Preserves false s h
    process_if-Preserves false s h = h

    pub maybe_process-Preserves : Preserves P (maybe_process p)
    unfolding maybe_process now_ms
    maybe_process-Preserves s h =
        elim (Result-cases (samples_to_ms (pos s.total_samples) (pos s.config.sample_rate))) [
          | inl (e, q) ↦ rw q h
          | inr (now, q) ↦ rw q (process_if-Preserves _ s h)
        ]
