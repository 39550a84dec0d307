-- ===== src/Config/Defaults.antt =====
-- src/sastt/config.py: the configuration that an empty file stands for.
use speaker_attributed_stt.Prelude.{true, false, none, some}
use speaker_attributed_stt.Config.{
  CountDefault, ShortSourcePolicy, EmbeddingWindow, LanguageMode, SasttConfig,
}
use speaker_attributed_stt.Config.Checks.{Floats}

module _ {F : Type 0} (fl : Floats F) where
  open fl use {hundredths}

  abbrev pub default_config : SasttConfig F
  default_config = record {
    product = record {
      max_session_speakers = 5;
      max_supported_concurrent_speakers = 2;
      three_source_beta = false;
      mono_four_five_source_research = false;
      multichannel_gss = false;
      target_speaker_extraction = false;
    };
    audio = record {
      canonical_sample_rate = 16000;
      preserve_input_channels = true;
      max_channels = 8;
      max_file_hours = hundredths 400;
      overlap_context_seconds = hundredths 50;
    };
    streaming = record {
      frame_ms = 40;
      ring_buffer_seconds = hundredths 3000;
      diarization_window_seconds = hundredths 1000;
      diarization_hop_seconds = hundredths 200;
      finalize_after_silence_seconds = hundredths 120;
      provisional_updates = true;
      allow_revision = true;
    };
    diarization = record {
      primary = "pyannote-community-1";
      model_path = some "/models/pyannote-community-1";
      min_speakers = 1;
      max_speakers = 5;
      regular_output_for_overlap = true;
      exclusive_output_for_non_overlap_alignment = true;
    };
    overlap_detection = record {
      model_path = some "/models/pyannote-segmentation-3.0";
      onset = hundredths 60;
      offset = hundredths 50;
      min_duration_seconds = hundredths 30;
      merge_gap_seconds = hundredths 20;
    };
    source_count = record {
      production_default = CountDefault.fixed_two;
      minimum_confidence = hundredths 75;
      multidecoder_research_model_path = none;
    };
    separation = record {
      two_source_backend = "mossformer2_ss_16k";
      two_source_model_path = some "/models/mossformer2-ss-16k";
      three_source_backend = "sepformer_libri3mix";
      three_source_model_path = none;
      max_crop_seconds = hundredths 1000;
      stitch_overlap_seconds = hundredths 100;
    };
    speaker_embedding = record {
      backend = "3d_speaker_campplus";
      model_path = some "/models/campplus";
      minimum_clean_speech_seconds = hundredths 150;
      target_clean_speech_seconds = hundredths 300;
      update_from_separated_sources = false;
    };
    source_linking = record {
      accept_threshold = none;
      ambiguous_margin = none;
      continuity_bonus = hundredths 2;
      min_embedding_ms = none;
      restrict_to_active_clusters = true;
      short_source_policy = ShortSourcePolicy.leave_unknown;
      embedding_window = EmbeddingWindow.owned;
    };
    voice_id = record {
      enabled = true;
      accept_threshold = none;
      ambiguous_margin = none;
      minimum_enrollment_clips = 3;
      minimum_total_speech_seconds = hundredths 1500;
      fail_closed_when_uncalibrated = true;
    };
    asr = record {
      realtime_model_path = some "/models/faster-whisper-large-v3-turbo";
      final_model_path = some "/models/faster-whisper-large-v3";
      language = none;
      language_detection = record {
        mode = LanguageMode.auto_once;
        sample_seconds = hundredths 3000;
        min_probability = hundredths 60;
      };
      word_timestamps = true;
      compute_type = "int8_float16";
      final_rescore = false;
    };
    confidence = record { calibration_path = none; return_null_when_uncalibrated = true };
  }
