-- ===== src/Config/Gates.antt =====
-- src/sastt/config.py: the manifests of the models, and the startup gate of an environment.
use speaker_attributed_stt.Prelude.{
  String, Bool, true, false, not, ◌&&◌, ◌||◌, ◌==◌, Option, none, some, List, [], ◌∷◌, str_eq,
  if◌then◌else◌,
}
use speaker_attributed_stt.Prelude.Dict.{Dict}
use speaker_attributed_stt.Errors.{
  ErrorCode, model_license_disabled, voice_id_uncalibrated, model_not_ready,
}
use speaker_attributed_stt.Transcript.{is_text}
use speaker_attributed_stt.Config.{
  Environment, is_production, ProductConfig, CountDefault, SasttConfig, is_calibrated,
}

pub data ProductionAction : Type 0 where
  allow production_candidate beta_only phase_2 experimental deny : ProductionAction

-- `production_action is ProductionAction.DENY`
unfoldable pub is_denied : ProductionAction → Bool
is_denied deny = true
is_denied _ = false

-- `PRODUCTION_ALLOWLIST`
unfoldable pub is_allowlisted : ProductionAction → Bool
is_allowlisted allow = true
is_allowlisted production_candidate = true
is_allowlisted _ = false

-- `ModelManifest`, with what the gate and `is_pinned` read.
pub record ModelManifest : Type 0 where
  pub component : String
  pub backend : String
  pub revision : Option String
  pub sha256 : Option String
  pub production_action : ProductionAction
  pub enabled : Bool
  pub requires_flag : Option String

unfoldable pub is_pinned : ModelManifest → Bool
unfolding is_text
is_pinned m = is_text m.revision || is_text m.sha256

unfoldable pub is_multidecoder : CountDefault → Bool
is_multidecoder CountDefault.multidecoder_research = true
is_multidecoder _ = false

-- The pairs that are appended, each under its condition.
unfoldable pub appended : List (Bool × (String × String)) → List (String × String)
appended [] = []
appended ((wanted, backend) ∷ rest) = if wanted then backend ∷ appended rest else appended rest

-- `bool(getattr(config.product, flag, False))`, where `inherited` is the truth of an attribute that is
-- none of the fields.
unfoldable pub flag_of : (String → Bool) → ProductConfig → String → Bool
flag_of inherited c flag =
    if str_eq flag "three_source_beta"
    then c.three_source_beta
    else if str_eq flag "mono_four_five_source_research"
    then c.mono_four_five_source_research
    else if str_eq flag "multichannel_gss"
    then c.multichannel_gss
    else if str_eq flag "target_speaker_extraction"
    then c.target_speaker_extraction
    else if str_eq flag "max_session_speakers"
    then not (c.max_session_speakers == 0)
    else if str_eq flag "max_supported_concurrent_speakers"
    then not (c.max_supported_concurrent_speakers == 0)
    else inherited flag

module _ {F : Type 0} where
  -- The backends that depend on a condition.
  abbrev pub optional_backends : SasttConfig F → List (Bool × (String × String))
  optional_backends c =
      (is_text c.overlap_detection.model_path, ("overlap_detection", "pyannote_segmentation_3.0"))
      ∷ (c.asr.final_rescore, ("asr_final", "faster_whisper_large_v3"))
      ∷ (
        c.product.three_source_beta,
        ("separation_three_source", c.separation.three_source_backend),
      )
      ∷ (c.product.mono_four_five_source_research, ("separation_research", "multidecoder_dprnn"))
      ∷ (c.product.multichannel_gss, ("separation_multichannel", "gpu_gss"))
      ∷ (c.product.target_speaker_extraction, ("target_extraction", "wesep"))
      ∷ (is_multidecoder c.source_count.production_default, ("source_count", "multidecoder_dprnn"))
      ∷ []

  unfoldable pub active_backends : SasttConfig F → List (String × String)
  unfolding appended
  active_backends c =
      ("diarization", c.diarization.primary)
      ∷ ("embedding", c.speaker_embedding.backend)
      ∷ ("asr", "faster_whisper")
      ∷ ("separation_two_source", c.separation.two_source_backend)
      ∷ appended (optional_backends c)

  -- The gates of the production environment alone.
  unfoldable pub gate_production : SasttConfig F → Option ErrorCode
  unfolding is_multidecoder
  gate_production c =
      if c.product.mono_four_five_source_research
      then some model_license_disabled
      else if is_multidecoder c.source_count.production_default
      then some model_license_disabled
      else if c.voice_id.enabled
          && (not (is_calibrated c.voice_id) && not c.voice_id.fail_closed_when_uncalibrated)
      then some voice_id_uncalibrated
      else none

-- The first exception, or what the rest raises.
abbrev pub or_else : Option ErrorCode → Option ErrorCode → Option ErrorCode
or_else (some code) rest = some code
or_else none rest = rest

module _ {F : Type 0} (inherited : String → Bool) where
  unfoldable pub flag_enabled : SasttConfig F → Option String → Bool
  unfolding flag_of
  flag_enabled config none = false
  flag_enabled config (some flag) = flag_of inherited config.product flag

  -- One round of the loop: the error code in the details of the exception, if it raises one.
  unfoldable pub gate_backend :
      Environment → SasttConfig F → Option ModelManifest → Option ErrorCode
  unfolding is_denied is_allowlisted is_text flag_enabled
  gate_backend environment config none =
      if is_production environment then some model_not_ready else none
  gate_backend environment config (some m) =
      if not m.enabled
      then some model_license_disabled
      else if not (is_production environment)
      then none
      else if is_denied m.production_action
      then some model_license_disabled
      else if not (is_allowlisted m.production_action) && not (flag_enabled config m.requires_flag)
      then some model_license_disabled
      else if not (is_text m.revision) && not (is_text m.sha256)
      then some model_not_ready
      else none

  unfoldable pub gate_backends :
      Environment → SasttConfig F → Dict ModelManifest → List (String × String) → Option ErrorCode
  unfolding gate_backend
  gate_backends environment config manifests [] = none
  gate_backends environment config manifests (b ∷ bs) =
      or_else (gate_backend environment config (manifests b.1))
        (gate_backends environment config manifests bs)

  -- `None` stands for a return, and else for a `ConfigurationError` with this code in its details.
  unfoldable pub validate_for_environment :
      SasttConfig F → Environment → Dict ModelManifest → Option ErrorCode
  unfolding gate_production gate_backends active_backends
  validate_for_environment config environment manifests =
      or_else (if is_production environment then gate_production config else none)
        (gate_backends environment config manifests (active_backends config))
