-- ===== src/Offline/Difference.antt =====
-- src/sastt/application/offline_pipeline.py: `_subtract` is the difference of sets of milliseconds.
use speaker_attributed_stt.Prelude.{
  ℕ, ◌≡◌, refl, not, ◌&&◌, ◌||◌, List, [], ◌∷◌, ◌++◌, All, All-append, arith,
}
use speaker_attributed_stt.Audio.Interval.{TimeInterval, IsValid, contains, intersects}
use speaker_attributed_stt.Audio.Merge.{merge_intervals}
use speaker_attributed_stt.Audio.Merge.Coverage.{covers, merge_intervals-covers}
use speaker_attributed_stt.Audio.Merge.Separation.{IsSeparated, merge_intervals-IsSeparated}
use speaker_attributed_stt.Offline.Regions.{beside, next_round, subtract_from, subtract}

covers-append :
    (xs ys : List TimeInterval) (ms : ℕ) → covers (xs ++ ys) ms ≡ (covers xs ms || covers ys ms)
covers-append [] ys ms = refl
covers-append (x ∷ xs) ys ms = ground (arith, covers-append xs ys ms)

beside-covers :
    (hole i : TimeInterval) (ms : ℕ)
    → IsValid hole
    → IsValid i
    → covers (beside hole i) ms ≡ (contains i ms && not (contains hole ms))
unfolding beside contains intersects
beside-covers hole i ms h v = ground arith

beside-IsValid : (hole i : TimeInterval) → IsValid i → All IsValid (beside hole i)
unfolding beside intersects
beside-IsValid hole i v = ground arith

next_round-covers :
    (hole : TimeInterval) (l : List TimeInterval) (ms : ℕ)
    → IsValid hole
    → All IsValid l
    → covers (next_round hole l) ms ≡ (covers l ms && not (contains hole ms))
unfolding next_round
next_round-covers hole [] ms h v = refl
next_round-covers hole (i ∷ rest) ms h v =
    let first = beside-covers hole i ms h v.0 in
    let ih = next_round-covers hole rest ms h v.1 in
    let both = covers-append (beside hole i) (next_round hole rest) ms in ground arith

next_round-IsValid :
    (hole : TimeInterval) (l : List TimeInterval) → All IsValid l → All IsValid (next_round hole l)
unfolding next_round
next_round-IsValid hole [] v = tt
next_round-IsValid hole (i ∷ rest) v =
    All-append IsValid (beside hole i) (next_round hole rest) (beside-IsValid hole i v.0)
      (next_round-IsValid hole rest v.1)

subtract_from-covers :
    (l holes : List TimeInterval) (ms : ℕ)
    → All IsValid l
    → All IsValid holes
    → covers (subtract_from l holes) ms ≡ (covers l ms && not (covers holes ms))
unfolding subtract_from
subtract_from-covers l [] ms v h = ground arith
subtract_from-covers l (hole ∷ holes) ms v h =
    let ih = subtract_from-covers (next_round hole l) holes ms (next_round-IsValid hole l v) h.1 in
    let one = next_round-covers hole l ms h.0 v in ground arith

IsSeparated-All : (l : List TimeInterval) → IsSeparated 0 l → All IsValid l
IsSeparated-All [] s = tt
IsSeparated-All (i ∷ []) s = (s, tt)
IsSeparated-All (i ∷ j ∷ rest) s = let (v, apart, more) = s in (v, IsSeparated-All (j ∷ rest) more)

merge_intervals-All : (l : List TimeInterval) → All IsValid l → All IsValid (merge_intervals l 0)
merge_intervals-All l v = IsSeparated-All (merge_intervals l 0) (merge_intervals-IsSeparated l 0 v)

-- Taking holes out of intervals, all of them valid: what is left covers a millisecond exactly if the
-- intervals cover it and the holes do not.
pub subtract-covers :
    (intervals holes : List TimeInterval) (ms : ℕ)
    → All IsValid intervals
    → All IsValid holes
    → covers (subtract intervals holes) ms ≡ (covers intervals ms && not (covers holes ms))
unfolding subtract
subtract-covers intervals holes ms v h =
    let difference =
      subtract_from-covers (merge_intervals intervals 0) (merge_intervals holes 0) ms
        (merge_intervals-All intervals v) (merge_intervals-All holes h) in
    let left = merge_intervals-covers intervals ms v in
    let right = merge_intervals-covers holes ms h in rw (difference, left, right) refl
