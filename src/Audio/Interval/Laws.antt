-- ===== src/Audio/Interval/Laws.antt =====
-- The interval operations agree with membership of a millisecond in the interval.
use speaker_attributed_stt.Prelude.{
  ℕ, ◌+◌, ◌-◌, ◌≤◌, ◌<◌, min, max, ◌≡◌, ◌↔◌, true, false, ◌&&◌, none, some, arith,
}
use speaker_attributed_stt.Prelude.Int.{pos}
use speaker_attributed_stt.Errors.{ok}
use speaker_attributed_stt.Audio.Interval.{
  TimeInterval, IsValid, make, intersects, intersection_ms, contains, gap_ms, pad, clamp,
  interval_le,
}

-- Exactly the valid bounds are accepted, and are kept.
pub make-eq-ok_iff :
    (start end : ℕ)
    → (make (pos start) (pos end) ≡ ok (record { start_ms = start; end_ms = end })) ↔ (start < end)
unfolding make
make-eq-ok_iff start end = ground arith

-- Two valid intervals intersect exactly when a millisecond lies in both, and then the later start
-- is one; the overlap is positive exactly then, and the gap is zero then.
pub intersects-overlap :
    (a b : TimeInterval)
    → IsValid a
    → IsValid b
    → ((intersects a b ≡ true) ↔ (0 < intersection_ms a b))
      × (intersects a b ≡ true
          → (contains a (max a.start_ms b.start_ms) ≡ true)
            × (contains b (max a.start_ms b.start_ms) ≡ true)
            × (gap_ms a b ≡ 0))
unfolding intersects intersection_ms contains gap_ms
intersects-overlap a b va vb = ground arith

pub intersects_of_common :
    (a b : TimeInterval) (ms : ℕ)
    → contains a ms ≡ true
    → contains b ms ≡ true
    → intersects a b ≡ true
unfolding intersects contains
intersects_of_common a b ms ha hb = ground arith

-- Padding a valid interval that lies within the bounds never fails, and the result holds the
-- interval and stays within the bounds.
pub pad_within :
    (i : TimeInterval) (context lower upper : ℕ)
    → IsValid i
    → lower ≤ i.start_ms
    → i.end_ms ≤ upper
    → (j : TimeInterval) × (pad i context lower (some upper) ≡ ok j)
      × (lower ≤ j.start_ms)
      × (j.start_ms ≤ i.start_ms)
      × (i.end_ms ≤ j.end_ms)
      × (j.end_ms ≤ upper)
unfolding pad
pad_within i context lower upper v lo hi = (
  record {
    start_ms = max lower (i.start_ms - context);
    end_ms = max (min upper (i.end_ms + context)) (max lower (i.start_ms - context) + 1);
  },
  ground arith,
  omega arith,
  omega arith,
  omega arith,
  omega arith,
)

-- Clamping keeps exactly the milliseconds that lie in both intervals.
pub clamp-contains :
    (i bounds : TimeInterval) (ms : ℕ)
    → (clamp i bounds ≡ ok none → (contains i ms && contains bounds ms) ≡ false)
      × ((j : TimeInterval)
          → clamp i bounds ≡ ok (some j)
          → contains j ms ≡ (contains i ms && contains bounds ms))
unfolding clamp contains
clamp-contains i bounds ms = (ground arith, λ j e. ground arith)

pub interval_le_total : (a b : TimeInterval) → interval_le a b ≡ false → interval_le b a ≡ true
unfolding interval_le
interval_le_total a b h = ground arith
