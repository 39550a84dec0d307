-- ===== src/Audio/Buffer/Crop.antt =====
-- Cropping a buffer: where it succeeds, and what the crop holds.
use speaker_attributed_stt.Prelude.{
  ℕ, ◌+◌, ◌-◌, ◌≤◌, ◌<◌, min, max, ◌≡◌, refl, sym, ap, ◌∙◌, true, Option, List, [], ◌∷◌, map, arith,
  lt→leb, ◌==◌, ==_iff, length, get_elem?, slice, drop, all, all-map, all-take, all-drop,
  length-map, length-take, length-drop, get_elem?-slice,
}
use speaker_attributed_stt.Prelude.Int.{pos}
use speaker_attributed_stt.Audio.Time.{ms_to_samples}
use speaker_attributed_stt.Audio.Interval.{TimeInterval}
use speaker_attributed_stt.Errors.{ok, err, unsupported_audio_format_error}
use speaker_attributed_stt.Audio.Buffer.{
  Numpy, is_rectangular, AudioBuffer, num_channels, num_samples, end_sample, make_buffer, cropped,
  crop_samples, crop_ms,
}

-- The sample of a channel at an absolute sample index.
abbrev pub sample_at : {F : Type 0} → AudioBuffer F → ℕ → ℕ → Option (Option F)
sample_at b channel t =
    get_elem? (map (λ row. get_elem? row (t - b.start_sample)) b.samples.rows) channel

module _ {F : Type 0} (np : Numpy F) where
  -- What `__post_init__` checks, and that the rows are as long as numpy says.
  pub record IsValid (b : AudioBuffer F) : Type 0 where
    pub some_channel : 1 ≤ num_channels b
    pub channel_bound : num_channels b ≤ 8
    pub layout : length b.channel_layout ≡ num_channels b
    pub not_empty : 0 < num_samples b
    pub rate : 0 < b.sample_rate
    pub finite : all (all np.is_finite) b.samples.rows ≡ true
    pub rectangular : is_rectangular b.samples ≡ true

  -- The constructor accepts exactly the valid buffers, and changes nothing.
  pub make_buffer-IsValid :
      (b : AudioBuffer F)
      → is_rectangular b.samples ≡ true
      → (IsValid b → make_buffer np b ≡ ok b)
        × ((c : AudioBuffer F) → make_buffer np b ≡ ok c → IsValid b × (c ≡ b))
  unfolding make_buffer
  make_buffer-IsValid b r = (
    λ v. ground arith,
    λ c e. (
      record {
        some_channel = ground arith;
        channel_bound = ground arith;
        layout = ground arith;
        not_empty = ground arith;
        rate = ground arith;
        finite = ground arith;
        rectangular = r;
      },
      ground arith,
    ),
  )

  finite_slice :
      (rows : List (List F)) (s e : ℕ)
      → all (all np.is_finite) rows ≡ true
      → all (all np.is_finite) (map (λ row. slice row s e) rows) ≡ true
  finite_slice rows s e h =
      all-map (all np.is_finite) (all np.is_finite) (λ row. slice row s e) rows
        (λ row fin. all-take np.is_finite (e - s) (drop s row) (all-drop np.is_finite s row fin)) h

  rectangular_slice :
      (rows : List (List F)) (w s e : ℕ)
      → all (λ row. length row == w) rows ≡ true
      → all (λ row. length row == min e w - s) (map (λ row. slice row s e) rows) ≡ true
  rectangular_slice rows w s e h =
      all-map (λ row. length row == min e w - s) (λ row. length row == w) (λ row. slice row s e)
        rows
        (λ row len.
          (==_iff _ _).1 (
            omega (arith, length-take (e - s) (drop s row), length-drop s row, (==_iff _ _).0 len)))
        h

  -- A crop between two samples of a valid buffer is a valid buffer.
  cropped-IsValid :
      (b : AudioBuffer F) (start end : ℕ)
      → IsValid b
      → b.start_sample ≤ start
      → start < end
      → end ≤ end_sample b
      → IsValid (cropped b start end)
  cropped-IsValid b start end v h1 h2 h3 =
      let len =
        length-map (λ row. slice row (start - b.start_sample) (end - b.start_sample))
          b.samples.rows in
      record {
        some_channel = omega (arith, len, v.some_channel);
        channel_bound = omega (arith, len, v.channel_bound);
        layout = v.layout ∙ sym len;
        not_empty = omega arith;
        rate = v.rate;
        finite = finite_slice b.samples.rows _ _ v.finite;
        rectangular = rectangular_slice b.samples.rows b.samples.width _ _ v.rectangular;
      }

  crop_samples-eq_make :
      (b : AudioBuffer F) (start end : ℕ)
      → start < end
      → crop_samples np b start end ≡ make_buffer np (cropped b start end)
  unfolding crop_samples
  crop_samples-eq_make b start end h = rw (lt→leb start end h)

  -- Cropping a valid buffer to an interval takes the part of the interval's samples that lies in the
  -- buffer, and fails exactly where that part is empty.
  pub crop_ms_lem :
      (b : AudioBuffer F) (i : TimeInterval) (start end : ℕ)
      → IsValid b
      → ms_to_samples (pos i.start_ms) (pos b.sample_rate) ≡ ok start
      → ms_to_samples (pos i.end_ms) (pos b.sample_rate) ≡ ok end
      → (max start b.start_sample < min end (end_sample b)
          → (crop_ms np b i ≡ ok (cropped b (max start b.start_sample) (min end (end_sample b))))
            × IsValid (cropped b (max start b.start_sample) (min end (end_sample b))))
        × (min end (end_sample b) ≤ max start b.start_sample
            → crop_ms np b i ≡ err unsupported_audio_format_error)
  unfolding crop_ms
  crop_ms_lem b i start end v p q = (
    λ h.
        let w =
          cropped-IsValid b (max start b.start_sample) (min end (end_sample b)) v (omega arith) h
            (omega arith) in
        (
          rw (p, q)
              (crop_samples-eq_make b _ _ h
                ∙ (make_buffer-IsValid (cropped b _ _) w.rectangular).0 w),
          w,
        ),
    λ h. rw (p, q) (ground arith),
  )

  rows_at :
      (rows : List (List F)) (from start end t : ℕ)
      → from ≤ start
      → start ≤ t
      → t < end
      → map
          (λ row. get_elem? row (t - start))
          (map (λ row. slice row (start - from) (end - from)) rows)
        ≡ map (λ row. get_elem? row (t - from)) rows
  rows_at [] from start end t h1 h2 h3 = refl
  rows_at (row ∷ rows) from start end t h1 h2 h3 =
      let e : start - from + (t - start) ≡ t - from = omega arith in
      cc (
        get_elem?-slice row (start - from) (end - from) (t - start) (omega arith),
        e,
        rows_at rows from start end t h1 h2 h3,
      )

  -- A crop holds the samples that the buffer holds at the same absolute sample index.
  pub sample_at-cropped :
      (b : AudioBuffer F) (start end channel t : ℕ)
      → b.start_sample ≤ start
      → start ≤ t
      → t < end
      → sample_at (cropped b start end) channel t ≡ sample_at b channel t
  sample_at-cropped b start end channel t h1 h2 h3 =
      ap (λ l. get_elem? l channel) (rows_at b.samples.rows b.start_sample start end t h1 h2 h3)
