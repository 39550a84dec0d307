-- ===== src/Config.antt =====
-- src/sastt/config.py: the sections of the configuration. `F` is a float; a literal is written in
-- hundredths.
pub mod Checks
pub mod Defaults
pub mod Gates
pub mod Gating
pub mod Licences
pub mod Settings
pub mod Overlay
pub mod Overrides
pub mod Loading
pub mod Loaded
use speaker_attributed_stt.Prelude.{ℕ, String, Bool, true, false, Option, none, some, ◌&&◌}
use speaker_attributed_stt.Prelude.Dict.{is_some}
use speaker_attributed_stt.Router.{RouterConfig}

pub data Environment : Type 0 where
  development staging production : Environment

abbrev pub is_production : Environment → Bool
is_production production = true
is_production staging = false
is_production development = false

pub record ProductConfig : Type 0 where
  pub max_session_speakers : ℕ
  pub max_supported_concurrent_speakers : ℕ
  pub three_source_beta : Bool
  pub mono_four_five_source_research : Bool
  pub multichannel_gss : Bool
  pub target_speaker_extraction : Bool

pub record AudioConfig (F : Type 0) : Type 0 where
  pub canonical_sample_rate : ℕ
  pub preserve_input_channels : Bool
  pub max_channels : ℕ
  pub max_file_hours : F
  pub overlap_context_seconds : F

pub record StreamingConfig (F : Type 0) : Type 0 where
  pub frame_ms : ℕ
  pub ring_buffer_seconds : F
  pub diarization_window_seconds : F
  pub diarization_hop_seconds : F
  pub finalize_after_silence_seconds : F
  pub provisional_updates : Bool
  pub allow_revision : Bool

pub record DiarizationConfig : Type 0 where
  pub primary : String
  pub model_path : Option String
  pub min_speakers : ℕ
  pub max_speakers : ℕ
  pub regular_output_for_overlap : Bool
  pub exclusive_output_for_non_overlap_alignment : Bool

pub record OverlapDetectionConfig (F : Type 0) : Type 0 where
  pub model_path : Option String
  pub onset : F
  pub offset : F
  pub min_duration_seconds : F
  pub merge_gap_seconds : F

-- The names that `production_default` may have.
pub data CountDefault : Type 0 where
  fixed_two ts_vad multichannel_activity multidecoder_research unknown : CountDefault

pub record SourceCountConfig (F : Type 0) : Type 0 where
  pub production_default : CountDefault
  pub minimum_confidence : F
  pub multidecoder_research_model_path : Option String

pub record SeparationConfig (F : Type 0) : Type 0 where
  pub two_source_backend : String
  pub two_source_model_path : Option String
  pub three_source_backend : String
  pub three_source_model_path : Option String
  pub max_crop_seconds : F
  pub stitch_overlap_seconds : F

pub record SpeakerEmbeddingConfig (F : Type 0) : Type 0 where
  pub backend : String
  pub model_path : Option String
  pub minimum_clean_speech_seconds : F
  pub target_clean_speech_seconds : F
  pub update_from_separated_sources : Bool

-- `algorithm` has one value only and is left out.
pub data ShortSourcePolicy : Type 0 where
  leave_unknown diarization_constrained : ShortSourcePolicy

pub data EmbeddingWindow : Type 0 where
  owned padded : EmbeddingWindow

pub record SourceLinkingConfig (F : Type 0) : Type 0 where
  pub accept_threshold : Option F
  pub ambiguous_margin : Option F
  pub continuity_bonus : F
  pub min_embedding_ms : Option ℕ
  pub restrict_to_active_clusters : Bool
  pub short_source_policy : ShortSourcePolicy
  pub embedding_window : EmbeddingWindow

pub record VoiceIdConfig (F : Type 0) : Type 0 where
  pub enabled : Bool
  pub accept_threshold : Option F
  pub ambiguous_margin : Option F
  pub minimum_enrollment_clips : ℕ
  pub minimum_total_speech_seconds : F
  pub fail_closed_when_uncalibrated : Bool

abbrev pub is_calibrated : {F : Type 0} → VoiceIdConfig F → Bool
is_calibrated c = is_some c.accept_threshold && is_some c.ambiguous_margin

pub data LanguageMode : Type 0 where
  auto_once fixed per_segment : LanguageMode

pub record LanguageDetectionConfig (F : Type 0) : Type 0 where
  pub mode : LanguageMode
  pub sample_seconds : F
  pub min_probability : F

pub record AsrConfig (F : Type 0) : Type 0 where
  pub realtime_model_path : Option String
  pub final_model_path : Option String
  pub language : Option String
  pub language_detection : LanguageDetectionConfig F
  pub word_timestamps : Bool
  pub compute_type : String
  pub final_rescore : Bool

pub record ConfidenceConfig : Type 0 where
  pub calibration_path : Option String
  pub return_null_when_uncalibrated : Bool

pub record SasttConfig (F : Type 0) : Type 0 where
  pub product : ProductConfig
  pub audio : AudioConfig F
  pub streaming : StreamingConfig F
  pub diarization : DiarizationConfig
  pub overlap_detection : OverlapDetectionConfig F
  pub source_count : SourceCountConfig F
  pub separation : SeparationConfig F
  pub speaker_embedding : SpeakerEmbeddingConfig F
  pub source_linking : SourceLinkingConfig F
  pub voice_id : VoiceIdConfig F
  pub asr : AsrConfig F
  pub confidence : ConfidenceConfig

-- What the router reads of a configuration.
abbrev pub router_config : {F : Type 0} → SasttConfig F → RouterConfig F
router_config c = record {
  minimum_confidence = c.source_count.minimum_confidence;
  three_source_beta = c.product.three_source_beta;
  multichannel_gss = c.product.multichannel_gss;
  mono_four_five_source_research = c.product.mono_four_five_source_research;
  target_speaker_extraction = c.product.target_speaker_extraction;
  max_session_speakers = c.product.max_session_speakers;
  two_source_backend = c.separation.two_source_backend;
  three_source_backend = c.separation.three_source_backend;
}
