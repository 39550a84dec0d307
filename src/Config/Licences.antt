-- ===== src/Config/Licences.antt =====
-- src/sastt/config.py: what the startup gate lets run in production.
use speaker_attributed_stt.Prelude.{
  ◌≡◌, ◌≢◌, ◌↔◌, refl, String, Bool, true, false, Option, none, some, List, [], ◌∷◌, All,
}
use speaker_attributed_stt.Prelude.Dict.{Dict}
use speaker_attributed_stt.Router.{SourceCountEstimate, CountingEvidence, route_overlap}
use speaker_attributed_stt.Router.Backends.{
  IsSwitchedOn, two_source, three_source, gss, research, extraction, route_overlap-IsSwitchedOn,
}
use speaker_attributed_stt.Transcript.{is_text}
use speaker_attributed_stt.Config.{production, CountDefault, SasttConfig, router_config}
use speaker_attributed_stt.Config.Gates.{
  ModelManifest, is_multidecoder, appended, optional_backends, active_backends,
  validate_for_environment,
}
use speaker_attributed_stt.Config.Settings.{IsSafe, IsGuarded_iff, is_multidecoder_iff, is_text_iff}
use speaker_attributed_stt.Config.Gating.{IsServed, IsListed, ↔-both, gate_passes_iff}

module _ {F : Type 0} where
  -- The models that a configuration may run, each with the setting that lets it.
  pub data MayRun (c : SasttConfig F) : String → Type 0 where
    diarizes : MayRun c c.diarization.primary
    embeds : MayRun c c.speaker_embedding.backend
    recognizes : MayRun c "faster_whisper"
    separates_two : MayRun c c.separation.two_source_backend
    detects_overlap :
        (path : String)
        → c.overlap_detection.model_path ≡ some path
        → path ≢ ""
        → MayRun c "pyannote_segmentation_3.0"
    rescores : c.asr.final_rescore ≡ true → MayRun c "faster_whisper_large_v3"
    separates_three :
        c.product.three_source_beta ≡ true → MayRun c c.separation.three_source_backend
    separates_more : c.product.mono_four_five_source_research ≡ true → MayRun c "multidecoder_dprnn"
    separates_channels : c.product.multichannel_gss ≡ true → MayRun c "gpu_gss"
    extracts : c.product.target_speaker_extraction ≡ true → MayRun c "wesep"
    counts_sources :
        c.source_count.production_default ≡ CountDefault.multidecoder_research
        → MayRun c "multidecoder_dprnn"

module _ {F : Type 0} (inherited : String → Bool) (c : SasttConfig F)
    (manifests : Dict ModelManifest) where
  -- What is appended under its condition is in the list where the condition holds.
  appended-All :
      (l : List (Bool × (String × String)))
      → All (IsListed inherited c manifests) (appended l)
      → All (λ x. x.0 ≡ true → IsListed inherited c manifests x.1) l
  unfolding appended
  appended-All [] h = tt
  appended-All ((true, backend) ∷ rest) h = (λ on. h.0, appended-All rest h.1)
  appended-All ((false, backend) ∷ rest) h = (λ on. absurd cc, appended-All rest h)

  All-appended :
      (l : List (Bool × (String × String)))
      → All (λ x. x.0 ≡ true → IsListed inherited c manifests x.1) l
      → All (IsListed inherited c manifests) (appended l)
  unfolding appended
  All-appended [] h = tt
  All-appended ((true, backend) ∷ rest) h = (h.0 refl, All-appended rest h.1)
  All-appended ((false, backend) ∷ rest) h = All-appended rest h.1

  MayRun-IsServed :
      (backend : String)
      → MayRun c backend
      → All (IsListed inherited c manifests) (active_backends c)
      → IsServed inherited c manifests backend
  unfolding active_backends
  MayRun-IsServed _ diarizes h = h.0
  MayRun-IsServed _ embeds h = h.1.0
  MayRun-IsServed _ recognizes h = h.1.1.0
  MayRun-IsServed _ separates_two h = h.1.1.1.0
  MayRun-IsServed _ (detects_overlap path at some_text) h =
      (appended-All (optional_backends c) h.1.1.1.1).0
        ((is_text_iff c.overlap_detection.model_path).1 (path, at, some_text))
  MayRun-IsServed _ (rescores on) h = (appended-All (optional_backends c) h.1.1.1.1).1.0 on
  MayRun-IsServed _ (separates_three on) h = (appended-All (optional_backends c) h.1.1.1.1).1.1.0 on
  MayRun-IsServed _ (separates_more on) h =
      (appended-All (optional_backends c) h.1.1.1.1).1.1.1.0 on
  MayRun-IsServed _ (separates_channels on) h =
      (appended-All (optional_backends c) h.1.1.1.1).1.1.1.1.0 on
  MayRun-IsServed _ (extracts on) h = (appended-All (optional_backends c) h.1.1.1.1).1.1.1.1.1.0 on
  MayRun-IsServed _ (counts_sources on) h =
      (appended-All (optional_backends c) h.1.1.1.1).1.1.1.1.1.1.0
        ((is_multidecoder_iff c.source_count.production_default).1 on)

  -- The list of `_active_backends` holds what may run, and no more.
  active_backends_iff :
      All (IsListed inherited c manifests) (active_backends c)
      ↔ ((backend : String) → MayRun c backend → IsServed inherited c manifests backend)
  unfolding active_backends
  active_backends_iff = (
    λ h backend may. MayRun-IsServed backend may h,
    λ served.
        let counts : is_multidecoder c.source_count.production_default ≡ true
            → IsServed inherited c manifests "multidecoder_dprnn" =
          λ on.
            served _
              (counts_sources ((is_multidecoder_iff c.source_count.production_default).0 on)) in
        let detects : is_text c.overlap_detection.model_path ≡ true
            → IsServed inherited c manifests "pyannote_segmentation_3.0" =
          λ on.
            let (path, at, some_text) = (is_text_iff c.overlap_detection.model_path).0 on in
            served _ (detects_overlap path at some_text) in
        let optional = All-appended (optional_backends c) (
          detects,
          (
            λ on. served _ (rescores on),
            (
              λ on. served _ (separates_three on),
              (
                λ on. served _ (separates_more on),
                (
                  λ on. served _ (separates_channels on),
                  (λ on. served _ (extracts on), (counts, tt)),
                ),
              ),
            ),
          ),
        ) in
        (
          served _ diarizes,
          (served _ embeds, (served _ recognizes, (served _ separates_two, optional))),
        ),
  )

  -- The startup gate lets a configuration run in production exactly if the separation of four or
  -- five sources and the research counter are off, Voice ID is off or calibrated by both thresholds
  -- or fails closed, and each model that a setting lets run has a manifest that is enabled, not
  -- denied, allowlisted or switched on by its flag, and pinned to a revision or a digest.
  pub validate_for_environment_iff :
      (validate_for_environment inherited c production manifests ≡ none) ↔ (
        IsSafe c × ((backend : String) → MayRun c backend → IsServed inherited c manifests backend))
  validate_for_environment_iff =
      ↔-both (gate_passes_iff inherited c manifests) (IsGuarded_iff c) active_backends_iff

  -- A separator that the router may name is one that the configuration may run.
  IsSwitchedOn-MayRun :
      (backend : String) → IsSwitchedOn (router_config c) backend → MayRun c backend
  IsSwitchedOn-MayRun _ two_source = separates_two
  IsSwitchedOn-MayRun _ (three_source on) = separates_three on
  IsSwitchedOn-MayRun _ (research on) = separates_more on
  IsSwitchedOn-MayRun _ (gss on) = separates_channels on
  IsSwitchedOn-MayRun _ (extraction on) = extracts on

  -- Whatever the counts and the evidence: in a configuration that the startup gate let run in
  -- production, a separator that the router names has a manifest that is enabled, licensed for
  -- production and pinned.
  pub route_overlap-IsServed :
      (count : SourceCountEstimate F) (evidence : Option (CountingEvidence F)) (osd_positive : Bool)
      (backend : String)
      → validate_for_environment inherited c production manifests ≡ none
      → (route_overlap count (router_config c) evidence osd_positive).backend ≡ some backend
      → IsServed inherited c manifests backend
  route_overlap-IsServed count evidence osd_positive backend passed named =
      (validate_for_environment_iff.0 passed).1 backend (
        IsSwitchedOn-MayRun backend
          (route_overlap-IsSwitchedOn (router_config c) count evidence osd_positive backend named))
