-- ===== src/Offline/Regions.antt =====
-- src/sastt/application/offline_pipeline.py: which words, regions and crops a stage gets.
use speaker_attributed_stt.Prelude.{
  ℕ, zero, suc, ◌+◌, ◌-◌, ◌/◌, min, max, String, Bool, not, Option, none, some, List, [], ◌∷◌, ◌++◌,
  if◌then◌else◌, filter, ltb, leb, map, find?,
}
use speaker_attributed_stt.Prelude.Int.{pos}
use speaker_attributed_stt.Errors.{Result, ok, err, out_of_fuel, ◌>>=◌}
use speaker_attributed_stt.Audio.Interval.{TimeInterval, make, duration_ms, intersects, contains}
use speaker_attributed_stt.Audio.Merge.{merge_intervals}
use speaker_attributed_stt.Transcript.{Word}

-- `OverlapRegion`
pub record OverlapRegion (F : Type 0) : Type 0 where
  pub interval : TimeInterval
  pub osd_activation : Option F
  pub model_version : String

unfoldable pub words_owned_by : {F : Type 0} → List (Word F) → TimeInterval → List (Word F)
unfolding contains
words_owned_by words interval =
    filter (λ word. contains interval ((word.start_ms + word.end_ms) / 2)) words

-- What is left of an interval beside a hole. The tests make each part an interval.
unfoldable pub beside : TimeInterval → TimeInterval → List TimeInterval
unfolding intersects
beside hole interval =
    if not (intersects interval hole)
    then interval ∷ []
    else (if ltb interval.start_ms hole.start_ms
        then record { start_ms = interval.start_ms; end_ms = hole.start_ms } ∷ []
        else [])
      ++ (if ltb hole.end_ms interval.end_ms
          then record { start_ms = hole.end_ms; end_ms = interval.end_ms } ∷ []
          else [])

-- `next_round`
unfoldable pub next_round : TimeInterval → List TimeInterval → List TimeInterval
unfolding beside
next_round hole [] = []
next_round hole (interval ∷ rest) = beside hole interval ++ next_round hole rest

unfoldable pub subtract_from : List TimeInterval → List TimeInterval → List TimeInterval
unfolding next_round
subtract_from remaining [] = remaining
subtract_from remaining (hole ∷ holes) = subtract_from (next_round hole remaining) holes

-- `_subtract`
unfoldable pub subtract : List TimeInterval → List TimeInterval → List TimeInterval
unfolding subtract_from
subtract intervals holes = subtract_from (merge_intervals intervals 0) (merge_intervals holes 0)

module _ {F : Type 0} (gt : F → F → Bool) where
  -- `max(activations) if activations else None`
  larger : Option F → Option F → Option F
  larger none b = b
  larger (some a) none = some a
  larger (some a) (some b) = if gt b a then some b else some a

  max_activation : List (OverlapRegion F) → Option F → Option F
  unfolding larger
  max_activation [] best = best
  max_activation (r ∷ rs) best = max_activation rs (larger best r.osd_activation)

  version_or_empty : Option (OverlapRegion F) → String
  version_or_empty none = ""
  version_or_empty (some r) = r.model_version

  merged_region : List (OverlapRegion F) → TimeInterval → OverlapRegion F
  unfolding max_activation version_or_empty intersects
  merged_region all_regions interval = record {
    interval = interval;
    osd_activation = max_activation (filter (λ r. intersects r.interval interval) all_regions) none;
    model_version = version_or_empty (find? (λ r. intersects r.interval interval) all_regions);
  }

  -- `_merge_overlap_regions`
  unfoldable pub merge_overlap_regions :
      List (OverlapRegion F) → List (OverlapRegion F) → ℕ → ℕ → List (OverlapRegion F)
  unfolding merged_region duration_ms
  merge_overlap_regions diarization_regions osd_regions merge_gap_ms min_duration_ms =
      map (merged_region (diarization_regions ++ osd_regions)) (
        filter (λ i. not (ltb (duration_ms i) min_duration_ms))
          (merge_intervals (map (λ r. r.interval) (diarization_regions ++ osd_regions))
            merge_gap_ms))

-- A window that is separated, and the part of the region that it answers for.
pub record Crop : Type 0 where
  pub window : TimeInterval
  pub owned : TimeInterval

-- The pair of a round, if it owns anything.
unfoldable pub crop_of : ℕ → ℕ → ℕ → ℕ → Result (List Crop)
crop_of start end owned_start owned_end =
    if ltb owned_start owned_end
    then (make (pos start) (pos end) >>= λ window.
        make (pos owned_start) (pos owned_end) >>= λ owned.
        ok (record { window = window; owned = owned } ∷ []))
    else ok []

module _ (padded region : TimeInterval) (max_crop_ms stitch_ms : ℕ) where
  abbrev pub step : ℕ
  step = max (max_crop_ms - stitch_ms) 1

  -- The loop, for a number of rounds.
  unfoldable pub split_from : ℕ → ℕ → ℕ → Result (List Crop)
  unfolding crop_of
  split_from zero start owned_start = err out_of_fuel
  split_from (suc rounds) start owned_start =
      let end = min (start + max_crop_ms) padded.end_ms in
      let owned_end = min (owned_start + step) region.end_ms in
      let rest = split_from rounds (start + step) owned_end in
      if not (ltb start padded.end_ms)
      then ok []
      else (crop_of start end owned_start owned_end >>= λ here.
          if leb padded.end_ms end then ok here else (rest >>= λ crops. ok (here ++ crops)))

  -- `_split_crop`; each round but the last starts at least a millisecond later.
  unfoldable pub split_crop : Result (List Crop)
  unfolding split_from duration_ms
  split_crop =
      if leb (duration_ms padded) max_crop_ms
      then ok (record { window = padded; owned = region } ∷ [])
      else split_from (duration_ms padded) padded.start_ms region.start_ms
