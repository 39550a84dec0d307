-- ===== src/Audio/Interval.antt =====
-- src/sastt/domain/audio.py: the half-open `TimeInterval` in absolute session time.
pub mod Laws
use speaker_attributed_stt.Prelude.{
  ℕ, ◌+◌, ◌-◌, ◌<◌, min, max, Bool, ◌&&◌, Option, none, some, ltb, leb, ◌==◌, if◌then◌else◌,
}
use speaker_attributed_stt.Prelude.Int.{ℤ, pos, is_negative, to_nat}
use speaker_attributed_stt.Errors.{Result, ok, err, value_error, raise_if, ◌>>=◌, ◌>>◌}

-- The bounds of a constructed interval are not negative, so they are numbers.
pub record TimeInterval : Type 0 where
  pub start_ms : ℕ
  pub end_ms : ℕ

-- `__post_init__`: a type error cannot arise, since the bounds are integers here.
unfoldable pub make : ℤ → ℤ → Result TimeInterval
make start_ms end_ms = do
  raise_if (is_negative start_ms) value_error
  raise_if (leb (to_nat end_ms) (to_nat start_ms)) value_error
  ok (record { start_ms = to_nat start_ms; end_ms = to_nat end_ms })

-- What `__post_init__` establishes.
abbrev pub IsValid : TimeInterval → Type 0
IsValid i = i.start_ms < i.end_ms

unfoldable pub duration_ms : TimeInterval → ℕ
duration_ms i = i.end_ms - i.start_ms

unfoldable pub intersects : TimeInterval → TimeInterval → Bool
intersects a b = ltb a.start_ms b.end_ms && ltb b.start_ms a.end_ms

-- `-` stops at 0 here, which is the `max(0, ...)` of the code.
unfoldable pub intersection_ms : TimeInterval → TimeInterval → ℕ
intersection_ms a b = min a.end_ms b.end_ms - max a.start_ms b.start_ms

unfoldable pub contains : TimeInterval → ℕ → Bool
contains i ms = leb i.start_ms ms && ltb ms i.end_ms

-- Of two disjoint intervals one difference is not negative, so the larger one is the number below.
unfoldable pub gap_ms : TimeInterval → TimeInterval → ℕ
unfolding intersects
gap_ms a b = if intersects a b then 0 else max (b.start_ms - a.end_ms) (a.start_ms - b.end_ms)

-- `end`, by the upper bound.
padded_end : TimeInterval → ℕ → Option ℕ → ℕ
padded_end i context_ms none = i.end_ms + context_ms
padded_end i context_ms (some upper_bound_ms) = min upper_bound_ms (i.end_ms + context_ms)

unfoldable pub pad : TimeInterval → ℕ → ℕ → Option ℕ → Result TimeInterval
unfolding padded_end make
pad i context_ms lower_bound_ms upper_bound_ms =
    let start = max lower_bound_ms (i.start_ms - context_ms) in
    make (pos start) (pos (max (padded_end i context_ms upper_bound_ms) (start + 1)))

unfoldable pub clamp : TimeInterval → TimeInterval → Result (Option TimeInterval)
unfolding make
clamp i bounds =
    let start = max i.start_ms bounds.start_ms in
    let end = min i.end_ms bounds.end_ms in
    if leb end start then ok none else (make (pos start) (pos end) >>= λ j. ok (some j))

-- The order that `order=True` derives: by start, then by end.
unfoldable pub interval_le : TimeInterval → TimeInterval → Bool
interval_le a b =
    if a.start_ms == b.start_ms then leb a.end_ms b.end_ms else ltb a.start_ms b.start_ms
