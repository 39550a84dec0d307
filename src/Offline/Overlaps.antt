-- ===== src/Offline/Overlaps.antt =====
-- src/sastt/application/offline_pipeline.py: one overlap region, with the second attempt and the
-- fallback. The models, cropping and the separation of a crop are ports; `S` is the state that they
-- change, the speakers of the session among it.
use speaker_attributed_stt.Prelude.{
  ℕ, ◌+◌, ◌-◌, ◌*◌, min, max, String, Bool, true, false, not, ◌&&◌, ◌||◌, Option, none, some, List,
  [], ◌∷◌, ◌++◌, if◌then◌else◌, ltb, leb,
}
use speaker_attributed_stt.Prelude.Dict.{Dict, put, is_some}
use speaker_attributed_stt.Errors.{Result, ok, err, Error, separation_failed_error}
use speaker_attributed_stt.Exec.{Exec, pure, lift, ◌>>=◌}
use speaker_attributed_stt.Audio.Interval.{TimeInterval, duration_ms, pad}
use speaker_attributed_stt.Transcript.{Word}
use speaker_attributed_stt.Fusion.{WordGroup}
use speaker_attributed_stt.Router.{
  RouteDecision, Route, separate_three_source_beta, runs_separation,
}
use speaker_attributed_stt.Offline.Regions.{OverlapRegion, words_owned_by}

-- `except SeparationFailedError`: no class derives from it.
unfoldable pub is_separation_failed : Error → Bool
is_separation_failed separation_failed_error = true
is_separation_failed _ = false

sum_durations : List TimeInterval → ℕ
unfolding duration_ms
sum_durations [] = 0
sum_durations (i ∷ is) = duration_ms i + sum_durations is

module _ {F : Type 0} (token_count_of : String → ℕ) where
  -- `sum(max(1, len(word.text.split())) for word in words)`, by the number of tokens of a text.
  tokens : List (Word F) → ℕ
  tokens [] = 0
  tokens (w ∷ ws) = max 1 (token_count_of w.text) + tokens ws

  latest : ℕ → List (Word F) → ℕ
  latest n [] = n
  latest n (w ∷ ws) = latest (max n w.end_ms) ws

  earliest : ℕ → List (Word F) → ℕ
  earliest n [] = n
  earliest n (w ∷ ws) = earliest (min n w.start_ms) ws

  -- The span of words, of which there is one.
  span_ms : List (Word F) → ℕ
  unfolding latest earliest
  span_ms [] = 0
  span_ms (w ∷ ws) = latest w.end_ms ws - earliest w.start_ms ws

  unfoldable pub is_plausible_transcript : List (Word F) → List TimeInterval → Bool
  unfolding tokens span_ms sum_durations
  is_plausible_transcript words speech_intervals =
      let speech_ms = sum_durations speech_intervals in
      let minimum_ms = tokens words * 60 in
      if ltb speech_ms 100
      then false
      else if ltb (tokens words) 4
      then true
      else leb minimum_ms speech_ms && leb minimum_ms (span_ms words)

-- What recognition hands back.
pub record Recognized (F : Type 0) : Type 0 where
  pub words : List (Word F)
  pub raw_scores : Dict F

pub record Ports (S B Sep F : Type 0) : Type 0 where
  -- `mono.crop_ms(interval)`
  pub crop_ms : TimeInterval → Result B
  -- Recognition in the language of the session, and speech detection.
  pub transcribe : B → Exec S (Recognized F)
  pub detect : B → Exec S (List TimeInterval)
  pub token_count_of : String → ℕ
  -- `tuple(sorted(set(warnings)))`
  pub flags_of : List String → List String
  pub separator : Option Sep
  pub three_source_separator : Option Sep
  -- `separate_and_link` on the padded interval: the groups, the warnings and whether it is degraded.
  pub separate_and_link :
      OverlapRegion F
      → TimeInterval
      → RouteDecision F
      → Sep
      → Exec S (List (WordGroup F) × (List String × Bool))
  pub context_ms : ℕ
  -- The bounds of the audio.
  pub start_ms : ℕ
  pub end_ms : ℕ

-- What a region yields.
pub record Handled (F : Type 0) : Type 0 where
  pub groups : List (WordGroup F)
  pub warnings : List String
  pub degraded : Bool

module _ {S B Sep F : Type 0} (p : Ports S B Sep F) where
  with_activation : Option F → Dict F → Dict F
  unfolding put
  with_activation none scores = scores
  with_activation (some a) scores = put scores "osd_activation" a

  -- The group of a transcript of the mixture that is plausible.
  mixture_group :
      OverlapRegion F → RouteDecision F → List String → Recognized F → List (Word F) → WordGroup F
  unfolding with_activation
  mixture_group region decision warnings result words = record {
    words = words;
    interval = region.interval;
    is_overlap = true;
    source_track = none;
    separation_backend = none;
    session_speaker_id = none;
    estimated_concurrent_speakers = decision.count.count;
    count_confidence = decision.count.confidence;
    raw_scores = with_activation region.osd_activation result.raw_scores;
    quality_flags = p.flags_of warnings;
    degraded_mode = true;
  }

  -- The groups, and the caller's list of warnings after the call.
  unfoldable pub mixture_of :
      OverlapRegion F
      → RouteDecision F
      → List String
      → B
      → Recognized F
      → List (Word F)
      → Exec S (List (WordGroup F) × List String)
  unfolding mixture_group is_plausible_transcript
  mixture_of region decision warnings crop result [] = pure ([], warnings)
  mixture_of region decision warnings crop result (w ∷ ws) = do
    speech ← p.detect crop
    pure (
        if is_plausible_transcript p.token_count_of (w ∷ ws) speech
        then (mixture_group region decision warnings result (w ∷ ws) ∷ [], warnings)
        else ([], warnings ++ "unreliable_mixture_transcript" ∷ []))

  unfoldable pub mixture_fallback :
      OverlapRegion F → RouteDecision F → List String → Exec S (List (WordGroup F) × List String)
  unfolding mixture_of words_owned_by
  mixture_fallback region decision warnings = do
    crop ← lift (p.crop_ms region.interval)
    result ← p.transcribe crop
    mixture_of region decision warnings crop result (words_owned_by result.words region.interval)

  -- The fallback as the result of the region.
  unfoldable pub fall_back :
      OverlapRegion F → RouteDecision F → List String → Bool → Exec S (Handled F)
  unfolding mixture_fallback
  fall_back region decision warnings degraded = do
    made ← mixture_fallback region decision warnings
    pure (record { groups = made.0; warnings = made.1; degraded = degraded })

  -- What follows a separation: its result, or what is done when it failed.
  unfoldable pub attempted :
      RouteDecision F
      → Exec S (Handled F)
      → Result (List (WordGroup F) × (List String × Bool))
      → Exec S (Handled F)
  unfolding is_separation_failed
  attempted decision otherwise (ok made) s = (
    ok (record {
      groups = made.0;
      warnings = decision.warnings ++ made.1.0;
      degraded = decision.degraded || made.1.1;
    }),
    s,
  )
  attempted decision otherwise (err e) s =
      if is_separation_failed e then otherwise s else (err e, s)

  -- A try block.
  unfoldable pub attempt :
      RouteDecision F
      → Exec S (List (WordGroup F) × (List String × Bool))
      → Exec S (Handled F)
      → Exec S (Handled F)
  unfolding attempted
  attempt decision separation otherwise s =
      let (r, s') = separation s in attempted decision otherwise r s'

  -- With a separator: on the padded region, once more on the region alone, and then the mixture.
  unfoldable pub with_separator : OverlapRegion F → RouteDecision F → Sep → Exec S (Handled F)
  unfolding attempt fall_back
  with_separator region decision sep = do
    padded ← lift (pad region.interval p.context_ms p.start_ms (some p.end_ms))
    attempt decision (p.separate_and_link region padded decision sep) (
        attempt decision (p.separate_and_link region region.interval decision sep)
          (fall_back region decision (decision.warnings ++ "separation_failed_degraded" ∷ []) true))

  unfoldable pub is_three_source : Route → Bool
  is_three_source separate_three_source_beta = true
  is_three_source _ = false

  -- `_separator_for`
  unfoldable pub separator_for : RouteDecision F → Option Sep
  unfolding is_three_source
  separator_for decision =
      if is_three_source decision.route then p.three_source_separator else p.separator

  unfoldable pub separate_if : OverlapRegion F → RouteDecision F → Option Sep → Exec S (Handled F)
  unfolding with_separator
  separate_if region decision none =
      fall_back region decision (decision.warnings ++ "separator_unavailable" ∷ []) true
  separate_if region decision (some sep) = with_separator region decision sep

  unfoldable pub handle_overlap_region : OverlapRegion F → RouteDecision F → Exec S (Handled F)
  unfolding separate_if separator_for
  handle_overlap_region region decision =
      if not (runs_separation decision) || not (is_some p.separator)
      then fall_back region decision decision.warnings
          (decision.degraded || not (is_some p.separator))
      else separate_if region decision (separator_for decision)
