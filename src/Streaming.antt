-- ===== src/Streaming.antt =====
-- src/sastt/application/streaming_pipeline.py: `StreamingSession`. The models, the overlap stages,
-- the clock and the new event ids are ports; metrics, timing and the temporary file's encoding are
-- left out, and a configured number of seconds is given in milliseconds.
pub mod Rolling
pub mod Superseding
pub mod Finishing
pub mod Frames
pub mod Keeping
pub mod Recording
pub mod Ledger
pub mod Choosing
pub mod Replacing
pub mod Closing
use Prim.Native.String.{◌++◌ as join}
use text.Mathlib.Text.{starts_with}
use speaker_attributed_stt.Prelude.{
  ℕ, zero, suc, ◌+◌, ◌-◌, ◌%◌, max, String, Bool, true, false, not, ◌&&◌, ◌||◌, Option, none, some,
  List, [], ◌∷◌, ◌++◌, str_eq, if◌then◌else◌, length, drop, filter, any, leb, ltb, ◌==◌,
}
use speaker_attributed_stt.Prelude.Int.{pos}
use speaker_attributed_stt.Prelude.Text.{decimal}
use speaker_attributed_stt.Errors.{
  Result, ok, err, sastt_error, session_clock_discontinuity_error, raise_if,
}
use speaker_attributed_stt.Exec.{Exec, pure, lift, reads, tries, modify, ◌>>=◌, ◌>>◌}
use speaker_attributed_stt.Audio.Time.{samples_to_ms, ms_to_samples}
use speaker_attributed_stt.Audio.Interval.{TimeInterval, make, intersection_ms}
use speaker_attributed_stt.Identity.{IdentityState, is_state}
use speaker_attributed_stt.Session.{
  Session, SessionSpeaker, LabelChange, speaker_state, active, get,
}
use speaker_attributed_stt.Session.Merging.{can_merge, merge}
use speaker_attributed_stt.Session.Resolution.{drain_label_changes, promote_provisional}
use speaker_attributed_stt.Transcript.{TranscriptSegment}
use speaker_attributed_stt.Events.Log.{
  EventType, session_started, transcript_provisional, transcript_revision, transcript_final,
  pipeline_warning, session_finalized, session_failed, ServerEvent, SessionEventLog, Append, append,
  replay_from, final_events,
}

-- src/sastt/domain/events.py: `SessionState`.
pub data SessionState : Type 0 where
  created streaming finalizing finalized failed : SessionState

unfoldable pub is_session_state : SessionState → SessionState → Bool
is_session_state created created = true
is_session_state streaming streaming = true
is_session_state finalizing finalizing = true
is_session_state finalized finalized = true
is_session_state failed failed = true
is_session_state _ _ = false

-- `_Emitted`
pub record Emitted : Type 0 where
  pub event_id : String
  pub start_ms : ℕ
  pub end_ms : ℕ
  pub session_speaker_id : String
  pub source_track : Option ℕ

-- The payloads of the session's events. A segment stands for its public form.
pub data Payload (F : Type 0) : Type 0 where
  started : String → ℕ → ℕ → ℕ → Payload F
  transcript : TranscriptSegment F → Payload F
  relabelled : LabelChange → Payload F
  ended : ℕ → ℕ → Payload F
  broken : String → String → Payload F
  warned : List String → Bool → Payload F

pub record StreamConfig : Type 0 where
  pub sample_rate : ℕ
  pub frame_ms : ℕ
  pub hop_ms : ℕ
  pub window_ms : ℕ
  pub ring_ms : ℕ
  pub silence_ms : ℕ
  pub max_session_speakers : ℕ
  pub config_version : Option String
  pub model_versions : List (String × Option String)

-- What the final pass hands back.
pub record FinalResult (F : Type 0) : Type 0 where
  pub segments : List (TranscriptSegment F)
  pub warnings : List String
  pub degraded : Bool
  pub config_version : Option String
  pub model_versions : List (String × Option String)

-- A sample is an `A`; `V` and `F` are the vectors and floats of the speakers' state, `G` a group of
-- words and `W` what the rolling pipeline remembers.
pub record Ports (A V F G W : Type 0) : Type 0 where
  -- The sample that two bytes stand for, the lower one first.
  pub sample : ℕ → ℕ → A
  -- The clock's answer and the new id for the event that gets this number.
  pub clock : ℕ → ℕ
  pub new_event_id : ℕ → String
  -- Diarization, overlap detection, `build_global_speakers`, speech detection and the language, on a
  -- window that starts at a sample: the intervals of speech.
  pub hear : List A → ℕ → Exec (Session V F × W) (List TimeInterval)
  -- The words of one pending interval, with those of its overlap regions that are closed, or of all
  -- of them.
  pub transcribe : List A → ℕ → Bool → TimeInterval → Exec (Session V F × W) (List G)
  -- `sort_segments(fusion.fuse(groups, turns, is_final=False))`
  pub fuse : List G → Exec (Session V F × W) (List (TranscriptSegment F))
  -- The offline pipeline on the whole audio, with the rolling pipeline's language.
  pub final_run : List A → W → Result (FinalResult F)

-- The attributes of a `StreamingSession` that change.
pub record Stream (A V F W : Type 0) : Type 0 where
  pub session_id : String
  pub config : StreamConfig
  pub state_machine : SessionState
  pub log : SessionEventLog (Payload F)
  pub speakers : Session V F
  pub pipeline : W
  pub samples : List A
  pub total_samples : ℕ
  -- The samples in the temporary file, if the audio is kept.
  pub session_pcm : Option (List A)
  pub emitted : List Emitted
  pub emitted_until_ms : ℕ
  pub last_process_ms : ℕ
  pub is_finalized : Bool

-- `_final_dedup_key`
track_text : Option ℕ → String
track_text none = "None"
track_text (some n) = decimal n

unfoldable pub final_dedup_key : {F : Type 0} → TranscriptSegment F → String
unfolding track_text
final_dedup_key g = join (decimal g.start_ms) (
    join ":" (
      join (decimal g.end_ms)
        (join ":" (join g.session_speaker_id (join ":" (track_text g.source_track))))))
