-- ===== src/Config/Checks.antt =====
-- src/sastt/config.py: the bounds that the fields declare, the validators of the sections and of the
-- whole, and the defaults. Every check that fails raises the same exception.
use speaker_attributed_stt.Prelude.{
  ℕ, Bool, true, false, not, ◌&&◌, ◌||◌, Option, none, some, ltb, leb, ◌==◌,
}
use speaker_attributed_stt.Prelude.Dict.{is_some}
use speaker_attributed_stt.Errors.{Result, value_error, raise_if, ◌>>◌}
use speaker_attributed_stt.Transcript.{is_text}
use speaker_attributed_stt.Config.{
  ProductConfig, AudioConfig, StreamingConfig, DiarizationConfig, OverlapDetectionConfig,
  SeparationConfig, SpeakerEmbeddingConfig, SourceLinkingConfig, VoiceIdConfig, is_calibrated,
  LanguageMode, AsrConfig, ConfidenceConfig, SasttConfig,
}

-- The comparisons of floats, and the float that so many hundredths are.
pub record Floats (F : Type 0) : Type 0 where
  pub gt : F → F → Bool
  pub ge : F → F → Bool
  pub hundredths : ℕ → F

abbrev within : ℕ → ℕ → ℕ → Bool
within low high n = leb low n && leb n high

-- `raise ValueError` unless the test holds.
abbrev need : Bool → Result (Unit {0})
need test = raise_if (not test) value_error

is_fixed : LanguageMode → Bool
is_fixed LanguageMode.fixed = true
is_fixed LanguageMode.auto_once = false
is_fixed LanguageMode.per_segment = false

unfoldable pub check_product : ProductConfig → Result (Unit {0})
check_product c =
    need (within 1 5 c.max_session_speakers)
    >> need (within 1 5 c.max_supported_concurrent_speakers)
    >> raise_if (ltb c.max_session_speakers c.max_supported_concurrent_speakers) value_error
    >> raise_if (leb 3 c.max_supported_concurrent_speakers && not c.three_source_beta) value_error
    >> raise_if
        (leb 4 c.max_supported_concurrent_speakers
          && not (c.multichannel_gss || c.mono_four_five_source_research))
        value_error

unfoldable pub check_diarization : DiarizationConfig → Result (Unit {0})
check_diarization c =
    need (within 1 5 c.min_speakers)
    >> need (within 1 5 c.max_speakers)
    >> raise_if (ltb c.max_speakers c.min_speakers) value_error
    >> need c.regular_output_for_overlap

unfoldable pub check_confidence : ConfidenceConfig → Result (Unit {0})
check_confidence c =
    raise_if (not (is_some c.calibration_path) && not c.return_null_when_uncalibrated) value_error

module _ {F : Type 0} (fl : Floats F) where
  open fl use {gt, ge, hundredths}

  positive : F → Bool
  positive v = gt v (hundredths 0)

  non_negative : F → Bool
  non_negative v = ge v (hundredths 0)

  -- `ge=0.0, le=1.0`
  in_unit : F → Bool
  in_unit v = ge v (hundredths 0) && ge (hundredths 100) v

  unfoldable pub check_audio : AudioConfig F → Result (Unit {0})
  unfolding positive non_negative
  check_audio c =
      need (c.canonical_sample_rate == 16000)
      >> need (within 1 8 c.max_channels)
      >> need (positive c.max_file_hours)
      >> need (non_negative c.overlap_context_seconds)
      >> need c.preserve_input_channels

  unfoldable pub check_streaming : StreamingConfig F → Result (Unit {0})
  unfolding positive
  check_streaming c =
      need (within 20 100 c.frame_ms)
      >> need (positive c.ring_buffer_seconds)
      >> need (positive c.diarization_window_seconds)
      >> need (positive c.diarization_hop_seconds)
      >> need (positive c.finalize_after_silence_seconds)
      >> raise_if (gt c.diarization_hop_seconds c.diarization_window_seconds) value_error
      >> raise_if (gt c.diarization_window_seconds c.ring_buffer_seconds) value_error
      >> raise_if (c.provisional_updates && not c.allow_revision) value_error

  unfoldable pub check_overlap_detection : OverlapDetectionConfig F → Result (Unit {0})
  unfolding positive non_negative in_unit
  check_overlap_detection c =
      need (in_unit c.onset)
      >> need (in_unit c.offset)
      >> need (positive c.min_duration_seconds)
      >> need (non_negative c.merge_gap_seconds)
      >> raise_if (gt c.offset c.onset) value_error

  unfoldable pub check_separation : SeparationConfig F → Result (Unit {0})
  unfolding positive non_negative
  check_separation c =
      need (positive c.max_crop_seconds)
      >> need (non_negative c.stitch_overlap_seconds)
      >> raise_if (ge c.stitch_overlap_seconds c.max_crop_seconds) value_error

  unfoldable pub check_speaker_embedding : SpeakerEmbeddingConfig F → Result (Unit {0})
  unfolding positive
  check_speaker_embedding c =
      need (positive c.minimum_clean_speech_seconds)
      >> need (positive c.target_clean_speech_seconds)
      >> raise_if (gt c.minimum_clean_speech_seconds c.target_clean_speech_seconds) value_error

  at_least_100 : Option ℕ → Bool
  at_least_100 none = true
  at_least_100 (some n) = leb 100 n

  unfoldable pub check_source_linking : SourceLinkingConfig F → Result (Unit {0})
  unfolding at_least_100
  check_source_linking c =
      need (ge c.continuity_bonus (hundredths 0) && ge (hundredths 5) c.continuity_bonus)
      >> need (at_least_100 c.min_embedding_ms)

  unfoldable pub check_voice_id : VoiceIdConfig F → Result (Unit {0})
  check_voice_id c =
      need (leb 3 c.minimum_enrollment_clips)
      >> need (ge c.minimum_total_speech_seconds (hundredths 1500))
      >> raise_if (c.enabled && (not (is_calibrated c) && not c.fail_closed_when_uncalibrated))
          value_error

  unfoldable pub check_asr : AsrConfig F → Result (Unit {0})
  unfolding positive in_unit is_text is_fixed
  check_asr c =
      need (positive c.language_detection.sample_seconds)
      >> need (in_unit c.language_detection.min_probability)
      >> raise_if (c.final_rescore && not (is_text c.final_model_path)) value_error
      >> raise_if (is_fixed c.language_detection.mode && not (is_text c.language)) value_error

  -- `_cross_section`
  unfoldable pub cross_section : SasttConfig F → Result (Unit {0})
  unfolding is_text
  cross_section c =
      raise_if (ltb c.product.max_session_speakers c.diarization.max_speakers) value_error
      >> raise_if
          (c.product.three_source_beta && not (is_text c.separation.three_source_model_path))
          value_error
      >> raise_if
          (c.product.mono_four_five_source_research
            && not (is_text c.source_count.multidecoder_research_model_path))
          value_error

  -- The sections in their order, and then the whole.
  unfoldable pub check_config : SasttConfig F → Result (Unit {0})
  unfolding in_unit
  check_config c =
      check_product c.product
      >> check_audio c.audio
      >> check_streaming c.streaming
      >> check_diarization c.diarization
      >> check_overlap_detection c.overlap_detection
      >> need (in_unit c.source_count.minimum_confidence)
      >> check_separation c.separation
      >> check_speaker_embedding c.speaker_embedding
      >> check_source_linking c.source_linking
      >> check_voice_id c.voice_id
      >> check_asr c.asr
      >> check_confidence c.confidence
      >> cross_section c
