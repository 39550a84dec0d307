-- ===== src/Examples/Attempts.antt =====
-- An overlap of two voices that no separator can separate.
use speaker_attributed_stt.Prelude.{ℕ, ◌+◌, ◌≡◌, refl, true, none, some, [], ◌∷◌}
use speaker_attributed_stt.Prelude.Dict.{empty}
use speaker_attributed_stt.Errors.{ok, err, separation_failed_error}
use speaker_attributed_stt.Exec.{pure}
use speaker_attributed_stt.Router.{
  RouteDecision, route_overlap, SourceCountEstimate, fixed_two, is_separating,
}
use speaker_attributed_stt.Offline.Regions.{OverlapRegion, words_owned_by}
use speaker_attributed_stt.Audio.Interval.{pad, make}
use speaker_attributed_stt.Offline.Overlaps.{Ports, handle_overlap_region, is_plausible_transcript}
use speaker_attributed_stt.Offline.Attempts.{Outcome, IsMarked, handle_overlap_region-Outcome}
use speaker_attributed_stt.Config.{router_config}
use speaker_attributed_stt.Examples.Configs.{shipped}
use speaker_attributed_stt.Examples.Words.{hello}

-- The state counts the attempts.
abbrev failing : Ports ℕ ℕ ℕ ℕ
failing = record {
  crop_ms = λ interval. ok 0;
  transcribe = λ crop. pure (record { words = hello ∷ []; raw_scores = empty });
  detect = λ crop. pure (record { start_ms = 0; end_ms = 500 } ∷ []);
  token_count_of = λ text. 1;
  flags_of = λ warnings. warnings;
  separator = some 1;
  three_source_separator = none;
  separate_and_link =
      λ region padded decision separator attempts. (err separation_failed_error, attempts + 1);
  context_ms = 500;
  start_ms = 0;
  end_ms = 5000;
}

abbrev both_talk : OverlapRegion ℕ
both_talk = record {
  interval = record { start_ms = 0; end_ms = 1000 };
  osd_activation = some 90;
  model_version = "osd";
}

abbrev two : SourceCountEstimate ℕ
two = record { count = some 2; confidence = none; method = fixed_two; count_uncertain = true }

abbrev separated_in_two : RouteDecision ℕ
separated_in_two = route_overlap two (router_config shipped) none true

handle_overlap_region-Outcome_example :
    Outcome
      (IsMarked separated_in_two)
      (handle_overlap_region failing both_talk separated_in_two 0).0
handle_overlap_region-Outcome_example =
    handle_overlap_region-Outcome failing (λ i. tt) (λ b s. tt) (λ b s. tt) both_talk
      separated_in_two 0

-- There were two attempts.
two_attempts : (handle_overlap_region failing both_talk separated_in_two 0).1 ≡ 2
unfolding handle_overlap_region route_overlap is_separating pad make words_owned_by
    is_plausible_transcript
two_attempts = refl
