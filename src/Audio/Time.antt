-- ===== src/Audio/Time.antt =====
-- src/sastt/domain/audio.py: sample indices and integer milliseconds.
pub mod Rounding
use speaker_attributed_stt.Prelude.{ℕ, ◌+◌, ◌*◌, ◌/◌, ◌≡◌, refl, Bool, leb}
use speaker_attributed_stt.Prelude.Int.{ℤ, pos, negsuc, is_negative, to_nat}
use speaker_attributed_stt.Errors.{Result, ok, err, value_error, raise_if, ◌>>=◌, ◌>>◌}

abbrev pub ms_per_second : ℕ
ms_per_second = 1000

abbrev pub min_channels : ℕ
min_channels = 1

abbrev pub max_channels : ℕ
max_channels = 8

abbrev pub min_input_sample_rate : ℕ
min_input_sample_rate = 8000

abbrev pub max_input_sample_rate : ℕ
max_input_sample_rate = 48000

abbrev pub canonical_sample_rate : ℕ
canonical_sample_rate = 16000

-- `n <= 0`
abbrev pub not_positive : ℤ → Bool
not_positive n = leb (to_nat n) 0

-- Rounded half up, in integers.
unfoldable pub samples_to_ms : ℤ → ℤ → Result ℕ
samples_to_ms sample_index sample_rate = do
  raise_if (not_positive sample_rate) value_error
  raise_if (is_negative sample_index) value_error
  let rate = to_nat sample_rate
  ok ((to_nat sample_index * ms_per_second + rate / 2) / rate)

unfoldable pub ms_to_samples : ℤ → ℤ → Result ℕ
ms_to_samples ms sample_rate = do
  raise_if (not_positive sample_rate) value_error
  raise_if (is_negative ms) value_error
  ok ((to_nat ms * to_nat sample_rate + ms_per_second / 2) / ms_per_second)
