-- ===== src/Offline/Crops.antt =====
-- src/sastt/application/offline_pipeline.py: the crops of a long overlap are separated one by one, and
-- each answers for its part of the region.
use speaker_attributed_stt.Prelude.{
  ℕ, zero, suc, ◌+◌, ◌-◌, ◌<◌, ◌≤◌, min, ◌≡◌, ◌⊎◌, refl, sym, inl, inr, subst, true, false, List,
  [], ◌∷◌, ◌++◌, ltb, leb, Bool-cases, arith,
}
use speaker_attributed_stt.Errors.{ok}
use speaker_attributed_stt.Audio.Interval.{TimeInterval, IsValid, make, duration_ms}
use speaker_attributed_stt.Offline.Regions.{Crop, crop_of, step, split_from, split_crop}

-- From `a` to `b` without a gap or an overlap, each part inside its window.
abbrev pub Tiles : ℕ → ℕ → List Crop → Type 0
Tiles a b [] = a ≡ b
Tiles a b (c ∷ rest) =
    (c.owned.start_ms ≡ a)
    × (a < c.owned.end_ms)
    × (c.window.start_ms ≤ a)
    × (c.owned.end_ms ≤ c.window.end_ms)
    × Tiles c.owned.end_ms b rest

Tiles-append : (a m b : ℕ) (xs ys : List Crop) → Tiles a m xs → Tiles m b ys → Tiles a b (xs ++ ys)
Tiles-append a m b [] ys h k = subst (λ x. Tiles x b ys) (sym h) k
Tiles-append a m b (c ∷ xs) ys h k =
    let (start, some_part, left, right, rest) = h in
    (start, some_part, left, right, Tiles-append c.owned.end_ms m b xs ys rest k)

-- The pair of a round tiles its part.
crop_of-Tiles :
    (start end owned_start owned_end : ℕ)
    → start < end
    → owned_start ≤ owned_end
    → (owned_start < owned_end → (start ≤ owned_start) × (owned_end ≤ end))
    → (here : List Crop) × (crop_of start end owned_start owned_end ≡ ok here)
      × Tiles owned_start owned_end here
unfolding crop_of make
crop_of-Tiles start end owned_start owned_end v le inside =
    elim (Bool-cases (ltb owned_start owned_end)) [
      | inr nothing ↦ ([], rw nothing refl, ground arith)
      | inl part ↦
          let lt : owned_start < owned_end = ground arith in
          let (left, right) = inside lt in
          let w : leb end start ≡ false = ground arith in
          let o : leb owned_end owned_start ≡ false = ground arith in
          (
            record {
              window = record { start_ms = start; end_ms = end };
              owned = record { start_ms = owned_start; end_ms = owned_end };
            }
                ∷ [],
            rw (part, w, o) refl,
            (refl, lt, left, right, refl),
          )
    ]

module _ (padded region : TimeInterval) (max_crop_ms stitch_ms : ℕ)
    (shorter : stitch_ms < max_crop_ms) (from : padded.start_ms ≤ region.start_ms)
    (to : region.end_ms ≤ padded.end_ms) (reach : region.start_ms ≤ padded.start_ms + stitch_ms)
    (context : stitch_ms + padded.start_ms + region.end_ms ≤ region.start_ms + padded.end_ms) where
  -- A round owns what its start leads to, or the region is used up.
  abbrev IsNext : ℕ → ℕ → Type 0
  IsNext start owned =
      (owned ≤ region.end_ms)
      × ((owned ≡ region.end_ms) ⊎ (owned + padded.start_ms ≡ start + region.start_ms))

  abbrev end_of : ℕ → ℕ
  end_of start = min (start + max_crop_ms) padded.end_ms

  abbrev owned_end_of : ℕ → ℕ
  owned_end_of owned = min (owned + step padded region max_crop_ms stitch_ms) region.end_ms

  round-Tiles :
      (start owned : ℕ)
      → start < padded.end_ms
      → IsNext start owned
      → (here : List Crop) × (crop_of start (end_of start) owned (owned_end_of owned) ≡ ok here)
        × Tiles owned (owned_end_of owned) here
  round-Tiles start owned before next =
      crop_of-Tiles start (end_of start) owned (owned_end_of owned) (ground arith) (ground arith)
        (λ lt. (ground arith, ground arith))

  -- The last round uses the region up.
  last_round :
      (start owned : ℕ)
      → padded.end_ms ≤ start + max_crop_ms
      → IsNext start owned
      → owned_end_of owned ≡ region.end_ms
  last_round start owned last next = ground arith

  next_round :
      (start owned : ℕ)
      → IsNext start owned
      → IsNext (start + step padded region max_crop_ms stitch_ms) (owned_end_of owned)
  next_round start owned next = ground arith

  split_from-Tiles :
      (rounds start owned : ℕ)
      → padded.end_ms ≤ start + rounds
      → start < padded.end_ms
      → IsNext start owned
      → (crops : List Crop) × (split_from padded region max_crop_ms stitch_ms rounds start owned
          ≡ ok crops)
        × Tiles owned region.end_ms crops
  unfolding split_from
  split_from-Tiles zero start owned fuel before next = absurd (omega arith)
  split_from-Tiles (suc rounds) start owned fuel before next =
      let (here, made, tiled) = round-Tiles start owned before next in
      let inside : ltb start padded.end_ms ≡ true = ground arith in
      elim (Bool-cases (leb padded.end_ms (end_of start))) [
        | inl last ↦
            let used = last_round start owned (ground arith) next in
            (here, rw (inside, made, last) refl, subst (λ b. Tiles owned b here) used tiled)
        | inr more ↦
            let (crops, rest, tiles) =
              split_from-Tiles rounds (start + step padded region max_crop_ms stitch_ms)
                (owned_end_of owned) (ground arith) (ground arith) (next_round start owned next) in
            (
              here ++ crops,
              rw (inside, made, more, rest) refl,
              Tiles-append owned (owned_end_of owned) region.end_ms here crops tiled tiles,
            )
      ]

  -- Let the stitch be shorter than a crop, the region lie in the padded interval, which starts at
  -- most a stitch before it, and let the padding before and behind it be at least a stitch together.
  -- Then the loop ends, and the parts that the windows answer for make up the region, one after the
  -- other without a gap or an overlap, each inside its window.
  pub split_crop-Tiles :
      IsValid region
      → (crops : List Crop) × (split_crop padded region max_crop_ms stitch_ms ≡ ok crops)
        × Tiles region.start_ms region.end_ms crops
  unfolding split_crop duration_ms
  split_crop-Tiles valid = elim (Bool-cases (leb (padded.end_ms - padded.start_ms) max_crop_ms)) [
    | inl short ↦ (
      record { window = padded; owned = region } ∷ [],
      rw short refl,
      (refl, valid, from, to, refl),
    )
    | inr long ↦
        let (crops, done, tiles) =
          split_from-Tiles (padded.end_ms - padded.start_ms) padded.start_ms region.start_ms
            (ground arith) (ground arith) (ground arith) in
        (crops, rw long done, tiles)
  ]
