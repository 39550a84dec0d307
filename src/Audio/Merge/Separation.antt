-- ===== src/Audio/Merge/Separation.antt =====
-- The merged intervals are valid, in order, and further apart than the merge gap.
use speaker_attributed_stt.Prelude.{
  ℕ, ◌+◌, ◌-◌, ◌≤◌, ◌<◌, inl, inr, List, [], ◌∷◌, arith, leb, Bool-cases, All,
}
use speaker_attributed_stt.Prelude.Sort.{sorted, IsSorted, sorted-IsSorted, sorted-All}
use speaker_attributed_stt.Audio.Interval.{TimeInterval, IsValid, interval_le}
use speaker_attributed_stt.Audio.Interval.Laws.{interval_le_total}
use speaker_attributed_stt.Audio.Merge.{joined, merge_from, merge_ordered, merge_intervals}

-- Every interval is valid, and starts more than `gap` after the end of the one before it.
abbrev pub IsSeparated : ℕ → List TimeInterval → Type 0
IsSeparated gap [] = Unit
IsSeparated gap (i ∷ []) = IsValid i
IsSeparated gap (i ∷ j ∷ rest) =
    IsValid i × (i.end_ms + gap < j.start_ms) × IsSeparated gap (j ∷ rest)

-- The first interval of the list, if any, starts after `bound`.
abbrev pub StartsAfter : ℕ → List TimeInterval → Type 0
StartsAfter bound [] = Unit
StartsAfter bound (i ∷ rest) = bound < i.start_ms

IsSeparated-cons :
    (gap : ℕ) (i : TimeInterval) (rest : List TimeInterval)
    → IsValid i
    → StartsAfter (i.end_ms + gap) rest
    → IsSeparated gap rest
    → IsSeparated gap (i ∷ rest)
IsSeparated-cons gap i [] v after h = v
IsSeparated-cons gap i (j ∷ rest) v after h = (v, after, h)

-- Starts that do not fall.
abbrev pub Ascends : ℕ → List TimeInterval → Type 0
Ascends start [] = Unit
Ascends start (i ∷ rest) = (start ≤ i.start_ms) × Ascends i.start_ms rest

pub Ascends-weaken : (a b : ℕ) (rest : List TimeInterval) → a ≤ b → Ascends b rest → Ascends a rest
Ascends-weaken a b [] h s = tt
Ascends-weaken a b (i ∷ rest) h s = (omega arith, s.1)

pub IsSorted-Ascends :
    (i : TimeInterval) (rest : List TimeInterval)
    → IsSorted interval_le (i ∷ rest)
    → Ascends i.start_ms rest
IsSorted-Ascends i [] h = tt
IsSorted-Ascends i (j ∷ rest) h = (unfold interval_le in ground arith, IsSorted-Ascends j rest h.1)

merge_from-StartsAfter :
    (gap bound : ℕ) (last : TimeInterval) (rest : List TimeInterval)
    → bound < last.start_ms
    → StartsAfter bound (merge_from gap last rest)
unfolding merge_from
merge_from-StartsAfter gap bound last [] h = h
merge_from-StartsAfter gap bound last (i ∷ rest) h =
    elim (Bool-cases (leb (i.start_ms - last.end_ms) gap)) [
      | inl e ↦ rw e (merge_from-StartsAfter gap bound (joined last i) rest h)
      | inr e ↦ rw e h
    ]

pub merge_from-IsSeparated :
    (gap : ℕ) (last : TimeInterval) (rest : List TimeInterval)
    → IsValid last
    → Ascends last.start_ms rest
    → All IsValid rest
    → IsSeparated gap (merge_from gap last rest)
unfolding merge_from
merge_from-IsSeparated gap last [] v s h = v
merge_from-IsSeparated gap last (i ∷ rest) v s h =
    elim (Bool-cases (leb (i.start_ms - last.end_ms) gap)) [
      | inl e ↦ rw e (
          merge_from-IsSeparated gap (joined last i) rest (omega arith)
            (Ascends-weaken last.start_ms i.start_ms rest s.0 s.1) h.1)
      | inr e ↦ rw e (
          IsSeparated-cons gap last (merge_from gap i rest) v
            (merge_from-StartsAfter gap (last.end_ms + gap) i rest (ground arith))
            (merge_from-IsSeparated gap i rest h.0 s.1 h.1))
    ]

merge_ordered-IsSeparated :
    (gap : ℕ) (ordered : List TimeInterval)
    → IsSorted interval_le ordered
    → All IsValid ordered
    → IsSeparated gap (merge_ordered gap ordered)
unfolding merge_ordered
merge_ordered-IsSeparated gap [] s h = tt
merge_ordered-IsSeparated gap (i ∷ rest) s h =
    merge_from-IsSeparated gap i rest h.0 (IsSorted-Ascends i rest s) h.1

-- Of valid intervals the merge gives valid intervals in order, each more than the merge gap after
-- the one before it.
pub merge_intervals-IsSeparated :
    (intervals : List TimeInterval) (gap : ℕ)
    → All IsValid intervals
    → IsSeparated gap (merge_intervals intervals gap)
unfolding merge_intervals
merge_intervals-IsSeparated intervals gap h =
    merge_ordered-IsSeparated gap (sorted interval_le intervals)
      (sorted-IsSorted interval_le interval_le_total intervals)
      (sorted-All interval_le IsValid intervals h)
