-- ===== src/Examples/Regions.antt =====
-- Speech beside an overlap, and a long overlap in two crops.
use speaker_attributed_stt.Prelude.{ℕ, ◌≡◌, refl, not, ◌&&◌, List, [], ◌∷◌, arith}
use speaker_attributed_stt.Errors.{ok}
use speaker_attributed_stt.Audio.Interval.{TimeInterval, make}
use speaker_attributed_stt.Audio.Merge.Coverage.{covers}
use speaker_attributed_stt.Offline.Regions.{Crop, subtract, split_crop}
use speaker_attributed_stt.Offline.Difference.{subtract-covers}
use speaker_attributed_stt.Offline.Crops.{Tiles, split_crop-Tiles}

abbrev span : ℕ → ℕ → TimeInterval
span from to = record { start_ms = from; end_ms = to }

subtract-covers_example :
    covers (subtract (span 0 10 ∷ span 20 30 ∷ []) (span 5 22 ∷ [])) 7
    ≡ (covers (span 0 10 ∷ span 20 30 ∷ []) 7 && not (covers (span 5 22 ∷ []) 7))
subtract-covers_example =
    subtract-covers (span 0 10 ∷ span 20 30 ∷ []) (span 5 22 ∷ []) 7
      (omega arith, (omega arith, tt)) (omega arith, tt)

split_crop-Tiles_example :
    (crops : List Crop) × (split_crop (span 100 21000) (span 600 20500) 10000 1000 ≡ ok crops)
    × Tiles 600 20500 crops
split_crop-Tiles_example =
    split_crop-Tiles (span 100 21000) (span 600 20500) 10000 1000 (omega arith) (omega arith)
      (omega arith) (omega arith) (omega arith) (omega arith)

-- Without padding, as in the second attempt, the last second of the region is in no part.
tail_is_lost :
    split_crop (span 0 19000) (span 0 19000) 10000 1000
    ≡ ok (
        record { window = span 0 10000; owned = span 0 9000 }
        ∷ record { window = span 9000 19000; owned = span 9000 18000 }
        ∷ [])
unfolding split_crop make
tail_is_lost = refl
