-- ===== src/Audio/Buffer.antt =====
-- src/sastt/domain/audio.py: `AudioBuffer` and `AudioAsset`. The samples are numpy's; the model is
-- generic in the type of a sample, and takes from numpy the test for a finite one and the mean.
pub mod Crop
use speaker_attributed_stt.Prelude.{
  ℕ, ◌+◌, ◌-◌, min, max, String, Bool, true, false, not, ◌||◌, List, [], ◌∷◌, map, ltb, leb, ◌==◌,
  if◌then◌else◌, length, slice, all,
}
use speaker_attributed_stt.Prelude.Int.{pos}
use speaker_attributed_stt.Errors.{
  Result, ok, err, unsupported_audio_format_error, invalid_channel_layout_error, raise_if, ◌>>=◌,
  ◌>>◌,
}
use speaker_attributed_stt.Audio.Time.{
  min_channels, max_channels, canonical_sample_rate, samples_to_ms, ms_to_samples,
}
use speaker_attributed_stt.Audio.Interval.{TimeInterval, make}

-- What the code asks of numpy: `np.isfinite` on one sample, and `mean(axis=0)`.
pub record Numpy (F : Type 0) : Type 0 where
  pub is_finite : F → Bool
  pub mean : List (List F) → List F

-- A 2-D array: a row for each channel, and `shape[1]`, which numpy keeps beside the rows.
pub record Samples (F : Type 0) : Type 0 where
  pub rows : List (List F)
  pub width : ℕ

-- Every row of a numpy array has `shape[1]` entries.
abbrev pub is_rectangular : {F : Type 0} → Samples F → Bool
is_rectangular s = all (λ row. length row == s.width) s.rows

pub record AudioBuffer (F : Type 0) : Type 0 where
  pub samples : Samples F
  pub sample_rate : ℕ
  pub start_sample : ℕ
  pub channel_layout : List String
  pub source_clock_hz : ℕ

module _ {F : Type 0} where
  abbrev pub num_channels : AudioBuffer F → ℕ
  num_channels b = length b.samples.rows

  abbrev pub num_samples : AudioBuffer F → ℕ
  num_samples b = b.samples.width

  abbrev pub end_sample : AudioBuffer F → ℕ
  end_sample b = b.start_sample + num_samples b

  abbrev pub is_mono : AudioBuffer F → Bool
  is_mono b = num_channels b == 1

  unfoldable pub duration_ms : AudioBuffer F → Result ℕ
  unfolding samples_to_ms
  duration_ms b = samples_to_ms (pos (num_samples b)) (pos b.sample_rate)

  -- `interval`
  unfoldable pub buffer_interval : AudioBuffer F → Result TimeInterval
  buffer_interval b = do
    start ← samples_to_ms (pos b.start_sample) (pos b.sample_rate)
    end ← samples_to_ms (pos (end_sample b)) (pos b.sample_rate)
    make (pos start) (pos (max end (start + 1)))

module _ {F : Type 0} where
  -- `samples[:, a:b]`
  abbrev pub columns : Samples F → ℕ → ℕ → Samples F
  columns s a b = record { rows = map (λ row. slice row a b) s.rows; width = min b s.width - a }

  -- The buffer that `crop_ms` makes once the bounds are samples of the buffer.
  abbrev pub cropped : AudioBuffer F → ℕ → ℕ → AudioBuffer F
  cropped b start end = record b {
    samples = columns b.samples (start - b.start_sample) (end - b.start_sample);
    start_sample = start;
  }

module _ {F : Type 0} (np : Numpy F) where
  -- `__post_init__`. The number of dimensions and the element type are fixed by the model's types,
  -- as is a start that is not negative.
  unfoldable pub make_buffer : AudioBuffer F → Result (AudioBuffer F)
  make_buffer b = do
    raise_if (ltb (num_channels b) min_channels || ltb max_channels (num_channels b))
        invalid_channel_layout_error
    raise_if (not (length b.channel_layout == num_channels b)) invalid_channel_layout_error
    raise_if (b.samples.width == 0) unsupported_audio_format_error
    raise_if (b.sample_rate == 0) unsupported_audio_format_error
    raise_if (not (all (all np.is_finite) b.samples.rows)) unsupported_audio_format_error
    ok b

  crop_samples : AudioBuffer F → ℕ → ℕ → Result (AudioBuffer F)
  unfolding make_buffer
  crop_samples b start end = do
    raise_if (leb end start) unsupported_audio_format_error
    make_buffer (cropped b start end)

  unfoldable pub crop_ms : AudioBuffer F → TimeInterval → Result (AudioBuffer F)
  unfolding crop_samples
  crop_ms b i = do
    start ← ms_to_samples (pos i.start_ms) (pos b.sample_rate)
    end ← ms_to_samples (pos i.end_ms) (pos b.sample_rate)
    crop_samples b (max start b.start_sample) (min end (end_sample b))

  unfoldable pub to_mono : AudioBuffer F → Result (AudioBuffer F)
  unfolding make_buffer
  to_mono b =
      if is_mono b
      then ok b
      else make_buffer (record b {
        samples = record { rows = np.mean b.samples.rows ∷ []; width = b.samples.width };
        channel_layout = "mono" ∷ [];
      })

pub record AudioAsset (F : Type 0) : Type 0 where
  pub original : AudioBuffer F
  pub mono_16k : AudioBuffer F
  pub channel_map : List String

abbrev map_or_layout : List String → List String → List String
map_or_layout [] layout = layout
map_or_layout (c ∷ cs) layout = c ∷ cs

-- `AudioAsset.__post_init__`; the checksum, the container and the quality are passed through.
unfoldable pub make_asset : {F : Type 0} → AudioAsset F → Result (AudioAsset F)
make_asset a = do
  raise_if (not (a.mono_16k.sample_rate == canonical_sample_rate)) unsupported_audio_format_error
  raise_if (not (is_mono a.mono_16k)) invalid_channel_layout_error
  ok (record a { channel_map = map_or_layout a.channel_map a.original.channel_layout })
