-- ===== src/Transcript.antt =====
-- src/sastt/domain/transcript.py: words and the segments of the public contract. A probability is a
-- float; of it only the test that it lies between 0 and 1 is used.

use speaker_attributed_stt.Prelude.Sort.{sorted}
use speaker_attributed_stt.Audio.Interval.{make, TimeInterval}
use Prim.Native.String.{String, ◌++◌ as join}
use speaker_attributed_stt.Prelude.{
  if◌then◌else◌, str_eq, ℕ, ◌/◌, ◌%◌, Bool, true, false, not, ◌||◌, ◌&&◌, Option, none, some, List,
  ltb, leb, ◌==◌,
}
use speaker_attributed_stt.Prelude.Dict.{Dict, is_some}
use speaker_attributed_stt.Prelude.Int.{ℤ, pos, is_negative, to_nat}
use speaker_attributed_stt.Prelude.Text.{decimal}
use speaker_attributed_stt.Errors.{Result, ok, schema_invariant_error, raise_if, ◌>>◌}
use speaker_attributed_stt.Identity.{IdentityStatus}

pub record Word (F : Type 0) : Type 0 where
  pub text : String
  pub start_ms : ℕ
  pub end_ms : ℕ
  pub raw_probability : Option F
  pub source_track : Option ℕ
  pub word_id : Option String

pub data ConfidenceStatus : Type 0 where
  uncalibrated calibrated : ConfidenceStatus

pub record Confidences (F : Type 0) : Type 0 where
  pub asr : Option F
  pub diarization : Option F
  pub linking : Option F
  pub voice_id : Option F
  pub overlap : Option F
  pub overall : Option F
  pub status : ConfidenceStatus

pub record ModelVersions : Type 0 where
  pub diarization : Option String
  pub embedding : Option String
  pub separation : Option String
  pub asr : Option String
  pub calibration : Option String

pub record TranscriptSegment (F : Type 0) : Type 0 where
  pub session_id : String
  pub event_id : String
  pub start_ms : ℕ
  pub end_ms : ℕ
  pub text : String
  pub speaker_id : String
  pub session_speaker_id : String
  pub identity_status : IdentityStatus
  pub revision : ℕ
  pub supersedes_event_id : Option String
  pub registry_speaker_id : Option String
  pub speaker_label : String
  pub speaker_name : Option String
  pub is_overlap : Bool
  pub estimated_concurrent_speakers : Option ℕ
  pub count_confidence : Option F
  pub source_track : Option ℕ
  pub separation_backend : Option String
  pub confidences : Confidences F
  pub raw_scores : Dict F
  pub quality_flags : List String
  pub degraded_mode : Bool
  pub is_final : Bool
  pub model_versions : ModelVersions
  pub words : List (Word F)
  pub schema_version : String

unfoldable pub is_enrolled : IdentityStatus → Bool
is_enrolled IdentityStatus.enrolled = true
is_enrolled IdentityStatus.provisional = false
is_enrolled IdentityStatus.anonymous = false
is_enrolled IdentityStatus.unknown = false
is_enrolled IdentityStatus.ambiguous = false

-- Python's truth of a text that may be missing.
unfoldable pub is_text : Option String → Bool
is_text none = false
is_text (some a) = not (str_eq a "")

is_uncalibrated : ConfidenceStatus → Bool
is_uncalibrated uncalibrated = true
is_uncalibrated calibrated = false

-- `source_track or 0`
abbrev track_or_zero : Option ℕ → ℕ
track_or_zero none = 0
track_or_zero (some n) = n

two_digits : ℕ → String
two_digits n = if ltb n 10 then join "0" (decimal n) else decimal n

three_digits : ℕ → String
unfolding two_digits
three_digits n = if ltb n 100 then join "0" (two_digits n) else decimal n

-- `_format_timestamp`
unfoldable pub format_timestamp : ℕ → String
unfolding two_digits three_digits
format_timestamp ms =
    join (two_digits (ms / 60000)) (
      join ":"
        (join (two_digits (ms % 60000 / 1000)) (join "." (three_digits (ms % 60000 % 1000)))))

module _ {F : Type 0} where
  -- `Word.__post_init__`
  unfoldable pub make_word : String → ℤ → ℤ → Option F → Option ℕ → Option String → Result (Word F)
  make_word text start_ms end_ms raw_probability source_track word_id = do
    raise_if (is_negative start_ms || leb (to_nat end_ms) (to_nat start_ms)) schema_invariant_error
    ok (record {
      text = text;
      start_ms = to_nat start_ms;
      end_ms = to_nat end_ms;
      raw_probability = raw_probability;
      source_track = source_track;
      word_id = word_id;
    })

  abbrev pub word_interval : Word F → Result TimeInterval
  word_interval w = make (pos w.start_ms) (pos w.end_ms)

  -- The value is missing or passes the test.
  abbrev absent_or : (F → Bool) → Option F → Bool
  absent_or p none = true
  absent_or p (some x) = p x

  -- `Confidences.__post_init__`
  unfoldable pub check_confidences : (F → Bool) → Confidences F → Result (Unit {0})
  unfolding is_uncalibrated
  check_confidences in_unit c = do
    raise_if (not (absent_or in_unit c.asr)) schema_invariant_error
    raise_if (not (absent_or in_unit c.diarization)) schema_invariant_error
    raise_if (not (absent_or in_unit c.linking)) schema_invariant_error
    raise_if (not (absent_or in_unit c.voice_id)) schema_invariant_error
    raise_if (not (absent_or in_unit c.overlap)) schema_invariant_error
    raise_if (not (absent_or in_unit c.overall)) schema_invariant_error
    raise_if (is_uncalibrated c.status && is_some c.overall) schema_invariant_error

  -- `TranscriptSegment._validate`: the segment comes back when it passes.
  unfoldable pub validate : (F → Bool) → TranscriptSegment F → Result (TranscriptSegment F)
  unfolding is_enrolled is_text
  validate in_unit g = do
    raise_if (not (ltb g.start_ms g.end_ms)) schema_invariant_error
    raise_if (ltb g.revision 1) schema_invariant_error
    raise_if (is_some g.separation_backend && not (is_some g.source_track)) schema_invariant_error
    raise_if (not (absent_or in_unit g.count_confidence)) schema_invariant_error
    raise_if
        (is_enrolled g.identity_status
          && (not (is_text g.registry_speaker_id) || not (is_text g.speaker_name)))
        schema_invariant_error
    raise_if (not (is_enrolled g.identity_status) && not (str_eq g.speaker_id g.session_speaker_id))
        schema_invariant_error
    ok g

  -- The order of the sort key, where `lt` is Python's order of texts.
  unfoldable pub sort_key_le :
      (String → String → Bool) → TranscriptSegment F → TranscriptSegment F → Bool
  sort_key_le lt a b =
      if a.start_ms == b.start_ms
      then if str_eq a.session_speaker_id b.session_speaker_id
        then leb (track_or_zero a.source_track) (track_or_zero b.source_track)
        else lt a.session_speaker_id b.session_speaker_id
      else ltb a.start_ms b.start_ms

  unfoldable pub sort_segments :
      (String → String → Bool) → List (TranscriptSegment F) → List (TranscriptSegment F)
  unfolding sort_key_le
  sort_segments lt segments = sorted (sort_key_le lt) segments
