-- ===== src/Audio/Time/Rounding.antt =====
-- How the two conversions round, and that they fit each other.
use native.Mathlib.Nat.{div-eq_of_lt-le, le-div_iff_mul-le, div-mul-le_self, le_trans}
use speaker_attributed_stt.Prelude.{ℕ, ◌+◌, ◌*◌, ◌/◌, ◌≤◌, ◌<◌, ◌≡◌, ap, arith}
use speaker_attributed_stt.Prelude.Int.{pos}
use speaker_attributed_stt.Errors.{ok, ◌>>=◌}
use speaker_attributed_stt.Audio.Time.{samples_to_ms, ms_to_samples, ms_per_second}

-- Where the guards pass, the two conversions are these quotients.
pub samples_to_ms-eq_div :
    (s rate : ℕ)
    → 0 < rate
    → samples_to_ms (pos s) (pos rate) ≡ ok ((s * ms_per_second + rate / 2) / rate)
unfolding samples_to_ms
samples_to_ms-eq_div s rate h = ground arith

pub ms_to_samples-eq_div :
    (ms rate : ℕ)
    → 0 < rate
    → ms_to_samples (pos ms) (pos rate) ≡ ok ((ms * rate + 500) / ms_per_second)
unfolding ms_to_samples
ms_to_samples-eq_div ms rate h = ground arith

-- The rounded product lies within half a sample, 500 thousandths, of the exact one.
nearest_sample : (p : ℕ) → (p ≤ (p + 500) / 1000 * 1000 + 499) × ((p + 500) / 1000 * 1000 ≤ p + 500)
nearest_sample p = omega arith

back_to_ms :
    (ms rate s : ℕ)
    → 1001 ≤ rate
    → ms * rate ≤ s * 1000 + 499
    → s * 1000 ≤ ms * rate + 500
    → (s * ms_per_second + rate / 2) / rate ≡ ms
back_to_ms ms rate s h low high = div-eq_of_lt-le {k = ms} rate (omega arith) (omega arith)

-- From 1001 Hz on, so at every supported input rate, a whole number of milliseconds survives the
-- conversion to a sample index and back.
pub ms_roundtrip :
    (ms rate : ℕ)
    → 1001 ≤ rate
    → (ms_to_samples (pos ms) (pos rate) >>= λ s. samples_to_ms (pos s) (pos rate)) ≡ ok ms
ms_roundtrip ms rate h = rw (ms_to_samples-eq_div ms rate (omega arith)) (
    rw (samples_to_ms-eq_div ((ms * rate + 500) / 1000) rate (omega arith)) (
      ap ok (back_to_ms ms rate _ h (nearest_sample (ms * rate)).0 (nearest_sample (ms * rate)).1)))

div_mono : (a b k : ℕ) → 0 < k → a ≤ b → a / k ≤ b / k
div_mono a b k h le = (le-div_iff_mul-le h).1 (le_trans (div-mul-le_self a k) le)

-- A later sample never has an earlier millisecond.
pub samples_to_ms_mono :
    (s t rate : ℕ) {a b : ℕ}
    → 0 < rate
    → s ≤ t
    → samples_to_ms (pos s) (pos rate) ≡ ok a
    → samples_to_ms (pos t) (pos rate) ≡ ok b
    → a ≤ b
samples_to_ms_mono s t rate pos_rate h p q = ground (
  arith,
  samples_to_ms-eq_div s rate,
  samples_to_ms-eq_div t rate,
  div_mono (s * 1000 + rate / 2) (t * 1000 + rate / 2) rate,
)
