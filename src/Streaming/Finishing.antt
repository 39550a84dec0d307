-- ===== src/Streaming/Finishing.antt =====
-- src/sastt/application/streaming_pipeline.py: the life of the session, the final pass and replay.
use text.Mathlib.Text.{starts_with}
use speaker_attributed_stt.Prelude.{
  ℕ, String, Bool, true, false, not, ◌&&◌, Option, none, some, List, [], ◌∷◌, ◌++◌, str_eq,
  if◌then◌else◌, length, find?, ◌==◌,
}
use speaker_attributed_stt.Errors.{sastt_error, raise_if}
use speaker_attributed_stt.Exec.{Exec, pure, lift, reads, tries, modify, ◌>>=◌, ◌>>◌}
use speaker_attributed_stt.Identity.{IdentityState, is_state}
use speaker_attributed_stt.Session.{Session, SessionSpeaker, speaker_state, active, get}
use speaker_attributed_stt.Session.Merging.{can_merge, merge}
use speaker_attributed_stt.Session.Resolution.{promote_provisional}
use speaker_attributed_stt.Transcript.{TranscriptSegment}
use speaker_attributed_stt.Events.Log.{
  session_started, transcript_final, pipeline_warning, session_finalized, session_failed,
  ServerEvent, Append, replay_from, final_events,
}
use speaker_attributed_stt.Streaming.{
  created, streaming, finalizing, finalized, failed, is_session_state, Emitted, Payload, started,
  transcript, ended, broken, warned, FinalResult, Ports, Stream, final_dedup_key,
}
use speaker_attributed_stt.Streaming.Rolling.{
  emit, plain, stage, now_ms, drain_label_revisions, process,
}
use speaker_attributed_stt.Streaming.Superseding.{Wanted, superseded_event_id}

-- `emitted_by_id.get(id)`: of two with one id the dict keeps the later one.
unfoldable pub emitted_by_id : List Emitted → String → Option Emitted
emitted_by_id [] id = none
emitted_by_id (e ∷ es) id =
    let later = emitted_by_id es id in
    elim later [ some x ↦ some x | none ↦ if str_eq e.event_id id then some e else none ]

module _ {A V F G W : Type 0} (p : Ports A V F G W) where
  -- A method of the speakers' state.
  abbrev pub on_speakers : {X : Type 0} → Exec (Session V F) X → Exec (Stream A V F W) X
  on_speakers m = stage p (λ sw. let (r, s') = m sw.0 in (r, (s', sw.1)))

  -- The identity that the final label names, other than the speaker's own.
  target_of : SessionSpeaker V F → TranscriptSegment F → Session V F → Option (SessionSpeaker V F)
  target_of speaker g s =
      find?
        (λ c.
          not (str_eq c.session_speaker_id speaker.session_speaker_id)
          && (not (is_state (speaker_state c) IdentityState.provisional)
              && str_eq c.display_label g.speaker_label))
        (active s)

  merge_or_promote :
      Bool
      → Option (SessionSpeaker V F)
      → SessionSpeaker V F
      → Emitted
      → TranscriptSegment F
      → Exec (Session V F) (Unit {0})
  merge_or_promote true (some target) speaker prior g = do
    change ← merge speaker.session_speaker_id target.session_speaker_id "final_pass_reconciliation"
    pure tt
  merge_or_promote _ _ speaker prior g = do
    change ←
        promote_provisional prior.session_speaker_id "final_pass_reconciliation"
          (some g.speaker_label)
    pure tt

  may_merge_into : SessionSpeaker V F → Option (SessionSpeaker V F) → Exec (Session V F) Bool
  may_merge_into speaker none = pure false
  may_merge_into speaker (some target) =
      can_merge speaker.session_speaker_id target.session_speaker_id

  reconcile_if :
      Bool → SessionSpeaker V F → Emitted → TranscriptSegment F → Exec (Session V F) (Unit {0})
  reconcile_if false speaker prior g = pure tt
  reconcile_if true speaker prior g = do
    target ← reads (target_of speaker g)
    allowed ← may_merge_into speaker target
    merge_or_promote allowed target speaker prior g

  -- The rolling identity of the event that is replaced takes the final label.
  unfoldable pub reconcile : Option Emitted → TranscriptSegment F → Exec (Session V F) (Unit {0})
  unfolding reconcile_if merge_or_promote may_merge_into target_of is_state
  reconcile none g = pure tt
  reconcile (some prior) g = do
    speaker ← tries (λ s. get s prior.session_speaker_id)
    reconcile_if
        (is_state (speaker_state speaker) IdentityState.provisional
          && starts_with g.speaker_label "Speaker ")
        speaker prior g

  abbrev pub wanted : TranscriptSegment F → Wanted
  wanted g = record {
    interval = record { start_ms = g.start_ms; end_ms = g.end_ms };
    source_track = g.source_track;
  }

  abbrev pub prior_of : List Emitted → Option String → Option Emitted
  prior_of es none = none
  prior_of es (some id) = emitted_by_id es id

  abbrev pub used_with : List String → Option String → List String
  used_with used none = used
  used_with used (some id) = id ∷ used

  -- The loop over the final segments: each with the id of the event that it replaces.
  unfoldable pub prepare :
      List (TranscriptSegment F)
      → List String
      → Exec (Stream A V F W) (List (TranscriptSegment F × Option String))
  unfolding reconcile
  prepare [] used = pure []
  prepare (g ∷ rest) used = do
    emitted ← reads (λ s. s.emitted)
    let superseded = superseded_event_id (wanted g) used emitted
    done ← on_speakers (reconcile (prior_of emitted superseded) g)
    others ← prepare rest (used_with used superseded)
    pure ((g, superseded) ∷ others)

  -- `2 if superseded else 1`
  abbrev pub revision_for : Option String → ℕ
  revision_for none = 1
  revision_for (some id) = 2

  unfoldable pub final_append :
      FinalResult F → TranscriptSegment F → Option String → Append (Payload F)
  unfolding final_dedup_key
  final_append result g superseded = record {
    event_type = transcript_final;
    revision = revision_for superseded;
    supersedes_event_id = superseded;
    is_final = true;
    payload = transcript g;
    model_versions = result.model_versions;
    config_version = result.config_version;
    dedup_key = some (final_dedup_key g);
    event_id = none;
  }

  unfoldable pub emit_finals :
      FinalResult F
      → List (TranscriptSegment F × Option String)
      → Exec (Stream A V F W) (List (ServerEvent (Payload F)))
  unfolding final_append
  emit_finals result [] = pure []
  emit_finals result ((g, superseded) ∷ rest) = do
    event ← emit p (final_append result g superseded)
    others ← emit_finals result rest
    pure (event ∷ others)

  unfoldable pub emit_warnings :
      FinalResult F → List String → Exec (Stream A V F W) (List (ServerEvent (Payload F)))
  emit_warnings result [] = pure []
  emit_warnings result (x ∷ xs) = do
    event ←
        emit p (
          plain p pipeline_warning (warned result.warnings result.degraded) []
            result.config_version)
    pure (event ∷ [])

  -- `_all_session_samples`
  abbrev pub all_samples : Option (List A) → List A → List A
  all_samples none ring = ring
  all_samples (some pcm) ring = pcm

  -- The rest of `_final_pass`, once the first revisions are out.
  unfoldable pub publish :
      FinalResult F
      → List (ServerEvent (Payload F))
      → Exec (Stream A V F W) (List (ServerEvent (Payload F)))
  unfolding prepare emit_finals emit_warnings
  publish result first = do
    prepared ← prepare result.segments []
    second ← drain_label_revisions p
    finals ← emit_finals result prepared
    warnings ← emit_warnings result result.warnings
    pure (first ++ (second ++ (finals ++ warnings)))

  unfoldable pub final_pass_of : Bool → Exec (Stream A V F W) (List (ServerEvent (Payload F)))
  final_pass_of true = pure []
  final_pass_of false = do
    result ← tries (λ s. p.final_run (all_samples s.session_pcm s.samples) s.pipeline)
    first ← drain_label_revisions p
    publish result first

  -- `_final_pass`
  unfoldable pub final_pass : Exec (Stream A V F W) (List (ServerEvent (Payload F)))
  unfolding final_pass_of
  final_pass = do silent ← reads (λ s. length s.samples == 0); final_pass_of silent

  -- The end of `finalize`, once the events before it are out.
  unfoldable pub end_session :
      List (ServerEvent (Payload F)) → Exec (Stream A V F W) (List (ServerEvent (Payload F)))
  end_session events = do
    modify (λ s. record s { state_machine = finalized; is_finalized = true })
    now ← now_ms p
    count ← reads (λ s. length (final_events s.log))
    config ← reads (λ s. s.config)
    event ←
        emit p
          (plain p session_finalized (ended count now) config.model_versions config.config_version)
    pure (events ++ event ∷ [])

  unfoldable pub finalize_if : Bool → Exec (Stream A V F W) (List (ServerEvent (Payload F)))
  finalize_if true = pure []
  finalize_if false = do
    modify (λ s. record s { state_machine = finalizing })
    rolling ← process p true
    finals ← final_pass
    end_session (rolling ++ finals)

  unfoldable pub finalize : Exec (Stream A V F W) (List (ServerEvent (Payload F)))
  unfolding finalize_if
  finalize = do done ← reads (λ s. s.is_finalized); finalize_if done

  unfoldable pub start : Exec (Stream A V F W) (ServerEvent (Payload F))
  start = do
    fresh ← reads (λ s. is_session_state s.state_machine created)
    lift (raise_if (not fresh) sastt_error)
    modify (λ s. record s { state_machine = streaming })
    s ← reads (λ s. s)
    emit p (
        plain p session_started
          (started s.session_id s.config.sample_rate s.config.frame_ms
            s.config.max_session_speakers)
          s.config.model_versions s.config.config_version)

  unfoldable pub fail : String → String → Exec (Stream A V F W) (ServerEvent (Payload F))
  fail error_code message = do
    modify (λ s. record s { state_machine = failed })
    config ← reads (λ s. s.config)
    emit p (plain p session_failed (broken error_code message) [] config.config_version)

  unfoldable pub replay : ℕ → Exec (Stream A V F W) (List (ServerEvent (Payload F)))
  replay last_sequence_number = tries (λ s. replay_from s.log last_sequence_number)
