-- ===== src/Streaming/Keeping.antt =====
-- src/sastt/application/streaming_pipeline.py: the final pass and the methods that start and end a
-- session keep what their stages keep.
use speaker_attributed_stt.Errors.{Result-cases}
use speaker_attributed_stt.Prelude.{
  arith, inl, inr, length, ◌==◌, ◌++◌, String, Bool, true, false, Option, List, [], ◌∷◌,
}
use speaker_attributed_stt.Exec.Preserves.{Preserves}
use speaker_attributed_stt.Audio.Time.{samples_to_ms}
use speaker_attributed_stt.Prelude.Int.{pos}
use speaker_attributed_stt.Transcript.{TranscriptSegment}
use speaker_attributed_stt.Events.Log.{
  ServerEvent, pipeline_warning, session_finalized, session_started, final_events,
}
use speaker_attributed_stt.Streaming.{
  Payload, warned, ended, started, finalizing, finalized, failed, streaming, FinalResult, Ports,
  Stream,
}
use speaker_attributed_stt.Streaming.Rolling.{emit, plain, now_ms, drain_label_revisions, process}
use speaker_attributed_stt.Streaming.Superseding.{superseded_event_id}
use speaker_attributed_stt.Streaming.Finishing.{
  prepare, wanted, used_with, prior_of, reconcile, on_speakers, all_samples, final_append, publish,
  end_session, emit_finals, emit_warnings, final_pass, final_pass_of, finalize, finalize_if, start,
  fail,
}
use speaker_attributed_stt.Streaming.Frames.{
  IsFrame, stage-Preserves, drain-Preserves, process-Preserves,
}

module _ {A V F G W : Type 0} (p : Ports A V F G W) (P : Stream A V F W → Type 0)
    (k : IsFrame p P) where
  prepare-Preserves :
      (gs : List (TranscriptSegment F)) (used : List String) → Preserves P (prepare p gs used)
  unfolding prepare
  prepare-Preserves [] used s h = h
  prepare-Preserves (g ∷ rest) used s h =
      let superseded = superseded_event_id (wanted p g) used s.emitted in
      let m = on_speakers p (reconcile p (prior_of p s.emitted superseded) g) in
      let h1 : P (m s).1 = stage-Preserves p P k _ s h in
      let h2 = prepare-Preserves rest (used_with p used superseded) (m s).1 h1 in ground arith

  emit_finals-Preserves :
      (result : FinalResult F) (prepared : List (TranscriptSegment F × Option String))
      → Preserves P (emit_finals p result prepared)
  unfolding emit_finals
  emit_finals-Preserves result [] s h = h
  emit_finals-Preserves result ((g, superseded) ∷ rest) s h =
      let a = final_append p result g superseded in
      let h1 = k.emits a s h in
      let h2 = emit_finals-Preserves result rest (emit p a s).1 h1 in ground arith

  emit_warnings-Preserves :
      (result : FinalResult F) (warnings : List String)
      → Preserves P (emit_warnings p result warnings)
  unfolding emit_warnings
  emit_warnings-Preserves result [] s h = h
  emit_warnings-Preserves result (x ∷ xs) s h =
      let a =
        plain p pipeline_warning (warned result.warnings result.degraded) []
          result.config_version in
      let h1 = k.emits a s h in ground arith

  publish-Preserves :
      (result : FinalResult F) (first : List (ServerEvent (Payload F)))
      → Preserves P (publish p result first)
  unfolding publish
  publish-Preserves result first s h =
      let m = prepare p result.segments [] in
      let h1 = prepare-Preserves result.segments [] s h in
      elim (Result-cases (m s).0) [
        | inl (e, q) ↦ rw q h1
        | inr (prepared, q) ↦ rw q (
            let s1 = (m s).1 in
            let h2 = drain-Preserves p P k s1 h1 in
            let s2 = (drain_label_revisions p s1).1 in
            let h3 = emit_finals-Preserves result prepared s2 h2 in
            let h4 =
              emit_warnings-Preserves result result.warnings (emit_finals p result prepared s2).1
                h3 in
            ground arith)
      ]

  final_pass_of-Preserves : (silent : Bool) → Preserves P (final_pass_of p silent)
  unfolding final_pass_of
  final_pass_of-Preserves true s h = h
  final_pass_of-Preserves false s h =
      elim (Result-cases (p.final_run (all_samples p s.session_pcm s.samples) s.pipeline)) [
        | inl (e, q) ↦ rw q h
        | inr (result, q) ↦ rw q (
            let h1 = drain-Preserves p P k s h in
            let s1 = (drain_label_revisions p s).1 in
            elim (Result-cases (drain_label_revisions p s).0) [
              | inl (e, r) ↦ rw r h1
              | inr (first, r) ↦ rw r (publish-Preserves result first s1 h1)
            ])
      ]

  final_pass-Preserves : Preserves P (final_pass p)
  unfolding final_pass
  final_pass-Preserves s h = final_pass_of-Preserves (length s.samples == 0) s h

  end-Preserves : (events : List (ServerEvent (Payload F))) → Preserves P (end_session p events)
  unfolding end_session now_ms
  end-Preserves events s h =
      let s1 = record s { state_machine = finalized; is_finalized = true } in
      let h1 : P s1 = k.moves s finalized true h in
      elim (Result-cases (samples_to_ms (pos s.total_samples) (pos s.config.sample_rate))) [
        | inl (e, q) ↦ rw q h1
        | inr (now, q) ↦ rw q (
            let a =
              plain p session_finalized (ended (length (final_events s1.log)) now)
                s.config.model_versions s.config.config_version in
            let h2 = k.emits a s1 h1 in ground arith)
      ]

  finalize_if-Preserves : (done : Bool) → Preserves P (finalize_if p done)
  unfolding finalize_if
  finalize_if-Preserves true s h = h
  finalize_if-Preserves false s h =
      let s1 = record s { state_machine = finalizing } in
      let h1 : P s1 = k.moves s finalizing s.is_finalized h in
      let h2 = process-Preserves p P k true s1 h1 in
      elim (Result-cases (process p true s1).0) [
        | inl (e, q) ↦ rw q h2
        | inr (rolling, q) ↦ rw q (
            let s2 = (process p true s1).1 in
            let h3 = final_pass-Preserves s2 h2 in
            elim (Result-cases (final_pass p s2).0) [
              | inl (e, r) ↦ rw r h3
              | inr (finals, r) ↦ rw r (end-Preserves (rolling ++ finals) (final_pass p s2).1 h3)
            ])
      ]

  pub finalize-Preserves : Preserves P (finalize p)
  unfolding finalize
  finalize-Preserves s h = finalize_if-Preserves s.is_finalized s h

  pub start-Preserves : Preserves P (start p)
  unfolding start
  start-Preserves s h =
      let s1 = record s { state_machine = streaming } in
      let h1 : P s1 = k.moves s streaming s.is_finalized h in
      let a =
        plain p session_started
          (started s.session_id s.config.sample_rate s.config.frame_ms
            s.config.max_session_speakers)
          s.config.model_versions s.config.config_version in
      let h2 = k.emits a s1 h1 in ground arith

  pub fail-Preserves : (code message : String) → Preserves P (fail p code message)
  unfolding fail
  fail-Preserves code message s h = k.emits _ _ (k.moves s failed s.is_finalized h)
