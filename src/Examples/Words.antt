-- ===== src/Examples/Words.antt =====
-- Two words of one turn, fused into one segment.
use speaker_attributed_stt.Fusion.Attribution.{best_turn-IsLargest, has_share}
use speaker_attributed_stt.Identity.{IdentityState, status}
use speaker_attributed_stt.Prelude.Sort.{insert_sorted, sorted}
use speaker_attributed_stt.Fusion.Segments.Identities.{contradicted_speaker_rejected}
use speaker_attributed_stt.Prelude.Text.{ends_with}
use speaker_attributed_stt.Fusion.Segments.Guard.{fuse-guard}
use speaker_attributed_stt.Prelude.Dict.{empty, put}
use speaker_attributed_stt.Errors.{schema_invariant_error, err, ok}
use speaker_attributed_stt.Fusion.Words.{coalesce-words, spoken_words, words_of}
use speaker_attributed_stt.Session.{public_speaker_id, get, SessionSpeaker}
use speaker_attributed_stt.Audio.Interval.{intersection_ms, TimeInterval}
use speaker_attributed_stt.Transcript.{uncalibrated, validate, Confidences, TranscriptSegment, Word}
use speaker_attributed_stt.Fusion.Segments.{segment_of, fuse, segments_of, FusionSettings}
use speaker_attributed_stt.Prelude.{
  All, any, true, ◌<◌, leb, ◌≤◌, false, length, String, ℕ, ◌≡◌, refl, ◌⊎◌, some, none, [], ◌∷◌,
}
use speaker_attributed_stt.Examples.Merging.{three, bob}
use speaker_attributed_stt.Fusion.{
  no_turn, best_turn, coalesce, SpeakerTurn, Utterance, Best, WordGroup,
}

abbrev pub hello : Word ℕ
hello = record {
  text = "hello";
  start_ms = 100;
  end_ms = 400;
  raw_probability = none;
  source_track = none;
  word_id = none;
}

abbrev there : Word ℕ
there = record hello { text = "there"; start_ms = 450; end_ms = 700 }

-- The later word comes first.
abbrev group : WordGroup ℕ
group = record {
  words = there ∷ hello ∷ [];
  interval = record { start_ms = 0; end_ms = 1000 };
  is_overlap = false;
  source_track = none;
  separation_backend = none;
  session_speaker_id = some "bob";
  estimated_concurrent_speakers = none;
  count_confidence = none;
  raw_scores = empty;
  quality_flags = [];
  degraded_mode = false;
}

abbrev utterance : Utterance ℕ
utterance = record { speaker_id = "bob"; words = hello ∷ there ∷ []; group = group }

abbrev ulids : ℕ → String
ulids n = "1"

coalesces : coalesce {V = ℕ} 700 [] ulids [] 0 (group ∷ []) three ≡ (ok (utterance ∷ []), three)
unfolding coalesce get put ends_with sorted insert_sorted
coalesces = refl

coalesce-words_example : words_of (utterance ∷ []) ≡ spoken_words (group ∷ [])
unfolding words_of
coalesce-words_example =
    coalesce-words 700 [] ulids [] (utterance ∷ []) 0 (group ∷ []) three three coalesces

abbrev no_confidence : Confidences ℕ
no_confidence = record {
  asr = none;
  diarization = none;
  linking = none;
  voice_id = none;
  overlap = none;
  overall = none;
  status = uncalibrated;
}

abbrev settings : FusionSettings ℕ
settings = record {
  session_id = "s";
  model_versions = record {
    diarization = none;
    embedding = none;
    separation = none;
    asr = none;
    calibration = none;
  };
  max_pause_ms = 700;
  calibrate = λ scores. no_confidence;
  mean = length;
  in_unit = λ x. leb x 1;
  is_final = true;
  revision = 1;
  supersedes_event_id = none;
}

abbrev pub segment : TranscriptSegment ℕ
segment = segment_of settings (λ t. t) bob utterance "evt"

segmented :
    segments_of settings (λ t. t) (λ n. "evt") 0 (utterance ∷ []) three ≡ (ok (segment ∷ []), three)
unfolding segments_of get put status public_speaker_id
segmented = refl

fuse-guard_example :
    fuse settings (λ t. t) (group ∷ []) [] ulids (λ n. "evt") three ≡ (ok (segment ∷ []), three)
fuse-guard_example =
    fuse-guard settings (λ t. t) (group ∷ []) [] ulids (λ n. "evt") (utterance ∷ []) (segment ∷ [])
      three three three coalesces segmented

-- A speaker that was enrolled, and then contradicted.
abbrev doubted : SessionSpeaker ℕ ℕ
doubted = record bob {
  machine = record { state = IdentityState.ambiguous; history = [] };
  registry_speaker_id = some "reg_bob";
}

contradicted_speaker_rejected_example :
    validate settings.in_unit (segment_of settings (λ t. t) doubted utterance "evt")
    ≡ err schema_invariant_error
unfolding status
contradicted_speaker_rejected_example =
    contradicted_speaker_rejected settings (λ t. t) doubted utterance "evt" "reg_bob" refl refl refl
      refl

abbrev early : SpeakerTurn
early = record { cluster_id = "c1"; interval = record { start_ms = 0; end_ms = 150 } }

abbrev late : SpeakerTurn
late = record { cluster_id = "c2"; interval = record { start_ms = 150; end_ms = 900 } }

abbrev span : TimeInterval
span = record { start_ms = 100; end_ms = 400 }

abbrev picked : Best
picked = best_turn three span none no_turn (early ∷ late ∷ [])

best_turn-IsLargest_example :
    All (λ t. intersection_ms t.interval span ≤ picked.overlap) (early ∷ late ∷ [])
    × ((picked ≡ no_turn)
        ⊎ ((c : String) × (picked.cluster ≡ some c)
            × (0 < picked.overlap)
            × (any (has_share three span none c picked.overlap) (early ∷ late ∷ []) ≡ true)))
best_turn-IsLargest_example = best_turn-IsLargest three span none (early ∷ late ∷ [])
