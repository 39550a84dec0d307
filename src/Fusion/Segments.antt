-- ===== src/Fusion/Segments.antt =====
-- src/sastt/application/fusion.py: `fuse`, from utterances to checked segments.
pub mod Identities
pub mod Guard
use speaker_attributed_stt.Errors.{raise_if, schema_invariant_error}
use speaker_attributed_stt.Identity.{status}
use speaker_attributed_stt.Session.{Session, public_speaker_id, SessionSpeaker}
use speaker_attributed_stt.Fusion.{
  get, Bool, SpeakerTurn, min, str_eq, Utterance, length, ℕ, last_end, Option, coalesce, WordGroup,
}
use speaker_attributed_stt.Transcript.{
  is_text, Confidences, validate, ModelVersions, Word, TranscriptSegment,
}
use speaker_attributed_stt.Prelude.{
  ◌&&◌, if◌then◌else◌, ◌≡◌, inl, inr, some, none, refl, List, [], ◌∷◌, not, ◌==◌, ◌+◌,
}
use speaker_attributed_stt.Exec.{Exec, pure, lift, reads, tries, modify, ◌>>=◌, ◌>>◌}
use speaker_attributed_stt.Prelude.Dict.{Dict, put, has}
use Prim.Native.String.{String, ◌++◌ as join}

-- What `FusionEngine` is built with and what `fuse` is given; floats and the calibrator are
-- parameters.
pub record FusionSettings (F : Type 0) : Type 0 where
  pub session_id : String
  pub model_versions : ModelVersions
  pub max_pause_ms : ℕ
  pub calibrate : Dict F → Confidences F
  pub mean : List F → F
  pub in_unit : F → Bool
  pub is_final : Bool
  pub revision : ℕ
  pub supersedes_event_id : Option String

abbrev with_separation : ModelVersions → Option String → ModelVersions
with_separation v none = v
with_separation v (some backend) =
    if not (str_eq backend "") && not (is_text v.separation)
    then record v { separation = some backend }
    else v

module _ {F : Type 0} where
  -- `min(word.start_ms for word in self.words)`
  unfoldable pub first_start : List (Word F) → ℕ
  first_start [] = 0
  first_start (w ∷ []) = w.start_ms
  first_start (w ∷ v ∷ ws) = min w.start_ms (first_start (v ∷ ws))

  joined_texts : List (Word F) → String
  joined_texts [] = ""
  joined_texts (w ∷ []) = w.text
  joined_texts (w ∷ v ∷ ws) = join w.text (join " " (joined_texts (v ∷ ws)))

  probabilities : List (Word F) → List F
  probabilities [] = []
  probabilities (w ∷ ws) =
      let rest = probabilities ws in elim w.raw_probability [ none ↦ rest | some p ↦ p ∷ rest ]

  -- `raw_scores.setdefault("asr_word_probability", ...)`
  scores_with : Dict F → List F → (List F → F) → Dict F
  scores_with scores [] mean = scores
  scores_with scores (p ∷ ps) mean =
      if has scores "asr_word_probability"
      then scores
      else put scores "asr_word_probability" (mean (p ∷ ps))

  unfoldable pub spoken_count : List (WordGroup F) → ℕ
  spoken_count [] = 0
  spoken_count (g ∷ gs) = length g.words + spoken_count gs

  unfoldable pub emitted_count : List (TranscriptSegment F) → ℕ
  emitted_count [] = 0
  emitted_count (g ∷ gs) = length g.words + emitted_count gs

module _ {V F : Type 0} (settings : FusionSettings F) (strip : String → String) where
  -- The segment of an utterance, before it is checked.
  unfoldable pub segment_of : SessionSpeaker V F → Utterance F → String → TranscriptSegment F
  unfolding first_start last_end joined_texts probabilities scores_with
  segment_of speaker u event_id =
      let scores : Dict F = scores_with u.group.raw_scores (probabilities u.words) settings.mean in
      record {
        session_id = settings.session_id;
        event_id = event_id;
        start_ms = first_start u.words;
        end_ms = last_end u.words;
        text = strip (joined_texts u.words);
        speaker_id = public_speaker_id speaker;
        session_speaker_id = speaker.session_speaker_id;
        identity_status = status speaker.machine;
        revision = settings.revision;
        supersedes_event_id = settings.supersedes_event_id;
        registry_speaker_id = speaker.registry_speaker_id;
        speaker_label = speaker.display_label;
        speaker_name = speaker.speaker_name;
        is_overlap = u.group.is_overlap;
        estimated_concurrent_speakers = u.group.estimated_concurrent_speakers;
        count_confidence = u.group.count_confidence;
        source_track = u.group.source_track;
        separation_backend = u.group.separation_backend;
        confidences = settings.calibrate scores;
        raw_scores = scores;
        quality_flags = u.group.quality_flags;
        degraded_mode = u.group.degraded_mode;
        is_final = settings.is_final;
        model_versions = with_separation settings.model_versions u.group.separation_backend;
        words = u.words;
        schema_version = "2.0";
      }

  unfoldable pub segments_of :
      (ℕ → String) → ℕ → List (Utterance F) → Exec (Session V F) (List (TranscriptSegment F))
  unfolding segment_of validate
  segments_of event_id n [] = pure []
  segments_of event_id n (u ∷ us) = do
    speaker ← tries (λ s. get s u.speaker_id)
    segment ← lift (validate settings.in_unit (segment_of speaker u (event_id n)))
    rest ← segments_of event_id (n + 1) us
    pure (segment ∷ rest)

  -- `_assert_concurrency_preserved` is the last test.
  unfoldable pub fuse :
      List (WordGroup F)
      → List SpeakerTurn
      → (ℕ → String)
      → (ℕ → String)
      → Exec (Session V F) (List (TranscriptSegment F))
  unfolding coalesce segments_of spoken_count emitted_count
  fuse groups turns ulid event_id = do
    utterances ← coalesce settings.max_pause_ms turns ulid [] 0 groups
    segments ← segments_of event_id 0 utterances
    lift (raise_if (not (emitted_count segments == spoken_count groups)) schema_invariant_error)
    pure segments
