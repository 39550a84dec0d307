-- ===== src/Examples/Sounds.antt =====
-- Times, intervals and a buffer.
use speaker_attributed_stt.Audio.Time.Rounding.{samples_to_ms_mono}
use speaker_attributed_stt.Audio.Interval.{TimeInterval}
use speaker_attributed_stt.Audio.Merge.Coverage.{
  merge_intervals-covers, total_duration_ms-eq_count, count_below, covers,
}
use speaker_attributed_stt.Audio.Merge.{merge_intervals, total_duration_ms}
use speaker_attributed_stt.Audio.Time.{samples_to_ms}
use speaker_attributed_stt.Prelude.{arith, ◌≤◌, ◌≡◌, refl, [], ◌∷◌}

samples_to_ms_mono_example : 1 ≤ 2
unfolding samples_to_ms
samples_to_ms_mono_example = samples_to_ms_mono 16 32 16000 (omega arith) (omega arith) refl refl

abbrev first : TimeInterval
first = record { start_ms = 100; end_ms = 300 }

abbrev second : TimeInterval
second = record { start_ms = 200; end_ms = 500 }

merge_intervals-covers_example :
    covers (merge_intervals (second ∷ first ∷ []) 0) 250 ≡ covers (second ∷ first ∷ []) 250
merge_intervals-covers_example =
    merge_intervals-covers (second ∷ first ∷ []) 250 (omega arith, (omega arith, tt))

total_duration_ms-eq_count_example :
    total_duration_ms (second ∷ first ∷ []) ≡ count_below 600 (covers (second ∷ first ∷ []))
total_duration_ms-eq_count_example =
    total_duration_ms-eq_count (second ∷ first ∷ []) 600 (omega arith, (omega arith, tt))
      (omega arith, (omega arith, tt))
