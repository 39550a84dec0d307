-- ===== src/Audio/Merge/Coverage.antt =====
-- The milliseconds that a list of intervals covers, and how many they are.
use speaker_attributed_stt.Prelude.{
  ℕ, zero, suc, ◌+◌, ◌-◌, ◌≤◌, ◌<◌, min, ◌≡◌, refl, sym, ap, ◌∙◌, inl, inr, Bool, true, false, ◌||◌,
  List, [], ◌∷◌, arith, leb, if◌then◌else◌, Bool-cases, All, any,
}
use speaker_attributed_stt.Prelude.Sort.{sorted, IsSorted, sorted-IsSorted, sorted-All, sorted-any}
use speaker_attributed_stt.Audio.Interval.{
  TimeInterval, IsValid, contains, duration_ms, interval_le,
}
use speaker_attributed_stt.Audio.Interval.Laws.{interval_le_total}
use speaker_attributed_stt.Audio.Merge.{
  joined, merge_from, merge_ordered, merge_intervals, sum_durations, total_duration_ms,
}
use speaker_attributed_stt.Audio.Merge.Separation.{
  Ascends, Ascends-weaken, IsSeparated, IsSorted-Ascends, merge_intervals-IsSeparated,
}

-- Some interval of the list holds the millisecond.
abbrev pub covers : List TimeInterval → ℕ → Bool
covers l ms = any (λ i. contains i ms) l

contains-joined :
    (a b : TimeInterval) (ms : ℕ)
    → IsValid b
    → a.start_ms ≤ b.start_ms
    → b.start_ms ≤ a.end_ms
    → contains (joined a b) ms ≡ (contains a ms || contains b ms)
unfolding contains joined
contains-joined a b ms v h near = ground arith

merge_from-covers :
    (last : TimeInterval) (rest : List TimeInterval) (ms : ℕ)
    → IsValid last
    → Ascends last.start_ms rest
    → All IsValid rest
    → covers (merge_from 0 last rest) ms ≡ covers (last ∷ rest) ms
unfolding merge_from
merge_from-covers last [] ms v s h = refl
merge_from-covers last (i ∷ rest) ms v s h = elim (Bool-cases (leb (i.start_ms - last.end_ms) 0)) [
  | inl e ↦ rw e (
      ground (
        arith,
        merge_from-covers (joined last i) rest ms (omega arith)
            (Ascends-weaken last.start_ms i.start_ms rest s.0 s.1) h.1,
        contains-joined last i ms h.0 s.0 (ground arith),
      ))
  | inr e ↦ rw e (ap (λ b. contains last ms || b) (merge_from-covers i rest ms h.0 s.1 h.1))
]

merge_ordered-covers :
    (ordered : List TimeInterval) (ms : ℕ)
    → IsSorted interval_le ordered
    → All IsValid ordered
    → covers (merge_ordered 0 ordered) ms ≡ covers ordered ms
unfolding merge_ordered
merge_ordered-covers [] ms s h = refl
merge_ordered-covers (i ∷ rest) ms s h =
    merge_from-covers i rest ms h.0 (IsSorted-Ascends i rest s) h.1

-- With no merge gap, merging valid intervals covers exactly the milliseconds that they cover.
pub merge_intervals-covers :
    (intervals : List TimeInterval) (ms : ℕ)
    → All IsValid intervals
    → covers (merge_intervals intervals 0) ms ≡ covers intervals ms
unfolding merge_intervals
merge_intervals-covers intervals ms h =
    merge_ordered-covers (sorted interval_le intervals) ms
      (sorted-IsSorted interval_le interval_le_total intervals)
      (sorted-All interval_le IsValid intervals h)
    ∙ sorted-any interval_le (λ i. contains i ms) intervals

-- How many numbers below `n` pass the test.
pub count_below : ℕ → (ℕ → Bool) → ℕ
count_below zero p = 0
count_below (suc n) p = (if p n then 1 else 0) + count_below n p

count_below-eq :
    (n : ℕ) (p q : ℕ → Bool) → ((m : ℕ) → p m ≡ q m) → count_below n p ≡ count_below n q
unfolding count_below
count_below-eq zero p q h = refl
count_below-eq (suc n) p q h =
    rw (h n) (ap (λ k. (if q n then 1 else 0) + k) (count_below-eq n p q h))

count_below-contains :
    (n : ℕ) (i : TimeInterval)
    → IsValid i
    → count_below n (contains i) ≡ min n i.end_ms - min n i.start_ms
unfolding count_below contains
count_below-contains zero i v = omega arith
count_below-contains (suc n) i v = ground (arith, count_below-contains n i v)

count_below-or :
    (n : ℕ) (p q : ℕ → Bool)
    → ((m : ℕ) → p m ≡ true → q m ≡ false)
    → count_below n (λ m. p m || q m) ≡ count_below n p + count_below n q
unfolding count_below
count_below-or zero p q h = omega arith
count_below-or (suc n) p q h = ground (arith, h n, count_below-or n p q h)

count_below-none : (n : ℕ) → count_below n (λ m. false) ≡ 0
unfolding count_below
count_below-none zero = refl
count_below-none (suc n) = omega (arith, count_below-none n)

-- What a separated list covers lies at or after its first start.
covers-after :
    (bound ms : ℕ) (i : TimeInterval) (rest : List TimeInterval)
    → bound < i.start_ms
    → IsSeparated 0 (i ∷ rest)
    → ms < bound
    → covers (i ∷ rest) ms ≡ false
unfolding contains
covers-after bound ms i [] h s lt = ground arith
covers-after bound ms i (j ∷ rest) h s lt =
    ground (arith, covers-after bound ms j rest (omega arith) s.2 lt)

disjoint :
    (ms : ℕ) (i j : TimeInterval) (rest : List TimeInterval)
    → IsSeparated 0 (i ∷ j ∷ rest)
    → contains i ms ≡ true
    → covers (j ∷ rest) ms ≡ false
disjoint ms i j rest s h =
    covers-after i.end_ms ms j rest (omega arith) s.2 (unfold contains in ground arith)

sum_durations-eq_count :
    (n : ℕ) (l : List TimeInterval)
    → IsSeparated 0 l
    → All (λ i. i.end_ms ≤ n) l
    → sum_durations l ≡ count_below n (covers l)
unfolding sum_durations duration_ms
sum_durations-eq_count n [] s h = sym (count_below-none n)
sum_durations-eq_count n (i ∷ []) s h = omega (
  arith,
  count_below-or n (contains i) (covers []) (λ ms e. refl),
  count_below-contains n i s,
  count_below-none n,
)
sum_durations-eq_count n (i ∷ j ∷ rest) s h = omega (
  arith,
  count_below-or n (contains i) (covers (j ∷ rest)) (λ ms. disjoint ms i j rest s),
  count_below-contains n i s.0,
  sum_durations-eq_count n (j ∷ rest) s.2 h.1,
)

merge_from-ends :
    (n gap : ℕ) (last : TimeInterval) (rest : List TimeInterval)
    → last.end_ms ≤ n
    → All (λ i. i.end_ms ≤ n) rest
    → All (λ i. i.end_ms ≤ n) (merge_from gap last rest)
unfolding merge_from
merge_from-ends n gap last [] h hs = (h, tt)
merge_from-ends n gap last (i ∷ rest) h hs =
    elim (Bool-cases (leb (i.start_ms - last.end_ms) gap)) [
      | inl e ↦ rw e (merge_from-ends n gap (joined last i) rest (omega arith) hs.1)
      | inr e ↦ rw e (h, merge_from-ends n gap i rest hs.0 hs.1)
    ]

merge_ordered-ends :
    (n gap : ℕ) (ordered : List TimeInterval)
    → All (λ i. i.end_ms ≤ n) ordered
    → All (λ i. i.end_ms ≤ n) (merge_ordered gap ordered)
unfolding merge_ordered
merge_ordered-ends n gap [] h = tt
merge_ordered-ends n gap (i ∷ rest) h = merge_from-ends n gap i rest h.0 h.1

merge_intervals-ends :
    (n gap : ℕ) (intervals : List TimeInterval)
    → All (λ i. i.end_ms ≤ n) intervals
    → All (λ i. i.end_ms ≤ n) (merge_intervals intervals gap)
unfolding merge_intervals
merge_intervals-ends n gap intervals h =
    merge_ordered-ends n gap (sorted interval_le intervals)
      (sorted-All interval_le (λ i. i.end_ms ≤ n) intervals h)

-- The total duration of valid intervals is the number of milliseconds that some interval covers:
-- a millisecond that several intervals share counts once. `n` is any bound on the ends.
pub total_duration_ms-eq_count :
    (intervals : List TimeInterval) (n : ℕ)
    → All IsValid intervals
    → All (λ i. i.end_ms ≤ n) intervals
    → total_duration_ms intervals ≡ count_below n (covers intervals)
unfolding total_duration_ms
total_duration_ms-eq_count intervals n v h =
    sum_durations-eq_count n (merge_intervals intervals 0)
      (merge_intervals-IsSeparated intervals 0 v) (merge_intervals-ends n 0 intervals h)
    ∙ count_below-eq n (covers (merge_intervals intervals 0)) (covers intervals)
        (λ ms. merge_intervals-covers intervals ms v)
