-- ===== src/Examples/Configs.antt =====
-- The default configuration with manifests for its models, and an override.
use speaker_attributed_stt.Prelude.{
  ℕ, String, ltb, leb, ◌≡◌, ◌↔◌, refl, true, false, none, some, List, [], ◌∷◌,
}
use speaker_attributed_stt.Prelude.Dict.{Dict, put}
use speaker_attributed_stt.Errors.{Result, ok}
use speaker_attributed_stt.Router.{SourceCountEstimate, route_overlap}
use speaker_attributed_stt.Router as Router
use speaker_attributed_stt.Config.{production, SasttConfig}
use speaker_attributed_stt.Config.Checks.{
  Floats, check_config, check_product, check_audio, check_streaming, check_diarization,
  check_overlap_detection, check_separation, check_speaker_embedding, check_source_linking,
  check_voice_id, check_asr, check_confidence, cross_section,
}
use speaker_attributed_stt.Config.Defaults.{default_config}
use speaker_attributed_stt.Config.Gates.{
  ModelManifest, production_candidate, validate_for_environment,
}
use speaker_attributed_stt.Config.Gating.{IsServable, IsServed}
use speaker_attributed_stt.Config.Settings.{IsSafe}
use speaker_attributed_stt.Config.Licences.{MayRun, validate_for_environment_iff}
use speaker_attributed_stt.Config.Overlay.{Value, leaf, section, Items, end, item, deep_merge, find}
use speaker_attributed_stt.Config.Overrides.{value_at, IsUntouched, IsDict, deep_merge-overrides}
use speaker_attributed_stt.Config.Loading.{load_config, manifests_from}
use speaker_attributed_stt.Config.Loaded.{Among, load_config-serves}

-- Floats are hundredths.
abbrev hundredths : Floats ℕ
hundredths = record { gt = λ a b. ltb b a; ge = λ a b. leb b a; hundredths = λ n. n }

abbrev pub shipped : SasttConfig ℕ
shipped = default_config hundredths

abbrev manifest : String → ModelManifest
manifest backend = record {
  component = "model";
  backend = backend;
  revision = some "v1";
  sha256 = none;
  production_action = production_candidate;
  enabled = true;
  requires_flag = none;
}

abbrev files : List (Result ModelManifest)
files =
    ok (manifest "pyannote-community-1")
    ∷ ok (manifest "3d_speaker_campplus")
    ∷ ok (manifest "faster_whisper")
    ∷ ok (manifest "mossformer2_ss_16k")
    ∷ ok (manifest "pyannote_segmentation_3.0")
    ∷ []

-- A manifest for every name.
abbrev every : Dict ModelManifest
every name = some (manifest name)

validate_for_environment_iff_example :
    (validate_for_environment (λ flag. false) shipped production every ≡ none) ↔ (
      IsSafe shipped
      × ((backend : String)
          → MayRun shipped backend
          → IsServed (λ flag. false) shipped every backend))
validate_for_environment_iff_example = validate_for_environment_iff (λ flag. false) shipped every

-- The gate passes it.
passes : validate_for_environment (λ flag. false) shipped production every ≡ none
unfolding validate_for_environment
passes = refl

abbrev convert : Items ℕ → Result (SasttConfig ℕ)
convert raw = ok shipped

loads :
    load_config hundredths (λ flag. false) convert (some end) none (ok production) files
    ≡ ok shipped
unfolding load_config check_config check_product check_audio check_streaming check_diarization
    check_overlap_detection check_separation check_speaker_embedding check_source_linking
    check_voice_id check_asr check_confidence cross_section manifests_from put
    validate_for_environment
loads = refl

abbrev two_voices : SourceCountEstimate ℕ
two_voices = record {
  count = some 2;
  confidence = none;
  method = Router.CountMethod.diarization_activity;
  count_uncertain = false;
}

load_config-serves_example :
    (m : ModelManifest) × Among m files
    × (m.backend ≡ "mossformer2_ss_16k")
    × IsServable (λ flag. false) shipped m
unfolding route_overlap
load_config-serves_example =
    load_config-serves hundredths (λ flag. false) convert (some end) none files shipped two_voices
      none true "mossformer2_ss_16k" loads refl

abbrev written : Items ℕ
written =
    item "streaming" (section (item "frame_ms" (leaf 40) (item "hop" (leaf 2) end)))
      (item "seed" (leaf 7) end)

abbrev override : Items ℕ
override = item "streaming" (section (item "hop" (leaf 5) end)) (item "extra" (leaf 1) end)

override-IsDict : IsDict override
unfolding IsDict find
override-IsDict = (refl, (refl, tt, tt), (refl, tt, tt))

deep_merge-overrides_example :
    ((path : List String) (l : ℕ)
      → value_at path (section override) ≡ some (leaf l)
      → value_at path (section (deep_merge written override)) ≡ some (leaf l))
    × ((path : List String) (v : Value ℕ)
        → IsUntouched path (section override)
        → value_at path (section written) ≡ some v
        → value_at path (section (deep_merge written override)) ≡ some v)
deep_merge-overrides_example = deep_merge-overrides written override override-IsDict

-- The hop is overridden and the frame is kept.
overrides :
    value_at ("streaming" ∷ "hop" ∷ []) (section (deep_merge written override)) ≡ some (leaf 5)
unfolding value_at find
overrides = deep_merge-overrides_example.0 ("streaming" ∷ "hop" ∷ []) 5 refl
