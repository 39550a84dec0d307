-- ===== src/Audio/Merge.antt =====
-- src/sastt/domain/audio.py: sorting and merging of intervals, and the covered time.
pub mod Separation
pub mod Coverage
use speaker_attributed_stt.Prelude.{ℕ, zero, ◌+◌, ◌-◌, max, List, [], ◌∷◌, leb, if◌then◌else◌}
use speaker_attributed_stt.Prelude.Sort.{sorted}
use speaker_attributed_stt.Audio.Interval.{TimeInterval, duration_ms, interval_le}

-- `TimeInterval(last.start_ms, max(last.end_ms, interval.end_ms))`; `merge_intervals-IsSeparated`
-- shows that its check never fails.
unfoldable pub joined : TimeInterval → TimeInterval → TimeInterval
joined last interval = record { start_ms = last.start_ms; end_ms = max last.end_ms interval.end_ms }

-- The loop over `ordered[1:]`, with `merged[-1]` as `last`; what stands before it is not touched.
unfoldable pub merge_from : ℕ → TimeInterval → List TimeInterval → List TimeInterval
unfolding joined
merge_from gap last [] = last ∷ []
merge_from gap last (interval ∷ rest) =
    let extended = merge_from gap (joined last interval) rest in
    let appended = last ∷ merge_from gap interval rest in
    if leb (interval.start_ms - last.end_ms) gap then extended else appended

merge_ordered : ℕ → List TimeInterval → List TimeInterval
unfolding merge_from
merge_ordered gap [] = []
merge_ordered gap (first ∷ rest) = merge_from gap first rest

unfoldable pub merge_intervals : List TimeInterval → ℕ → List TimeInterval
unfolding merge_ordered sorted interval_le
merge_intervals intervals gap = merge_ordered gap (sorted interval_le intervals)

sum_durations : List TimeInterval → ℕ
unfolding duration_ms
sum_durations [] = 0
sum_durations (i ∷ rest) = duration_ms i + sum_durations rest

unfoldable pub total_duration_ms : List TimeInterval → ℕ
unfolding merge_intervals sum_durations
total_duration_ms intervals = sum_durations (merge_intervals intervals 0)
