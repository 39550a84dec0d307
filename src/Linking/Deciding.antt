-- ===== src/Linking/Deciding.antt =====
-- The decision on each source, from the scores and the answer of the solver.
use speaker_attributed_stt.Linking.{
  linked, is_missing, Matrix, LinkingConfig, LinkingDecision, LinkStatus, Scores,
}
use speaker_attributed_stt.Prelude.{
  if◌then◌else◌, String, ℕ, suc, Bool, true, false, not, ◌&&◌, Option, none, some, List, [], ◌∷◌,
  ltb, ◌==◌, all, get_elem?,
}
use speaker_attributed_stt.Prelude.Sort.{sorted}

-- The key that the solver's column stands for. The dummy columns come behind the keys.
unfoldable pub key_of : List String → Option ℕ → Option (ℕ × String)
key_of keys none = none
key_of keys (some j) = elim (get_elem? keys j) [ none ↦ none | some key ↦ some (j, key) ]

module _ {F : Type 0} (num : Scores F) where
  finite_scores : List (Option F) → List F
  finite_scores [] = []
  finite_scores (none ∷ row) = finite_scores row
  finite_scores (some s ∷ row) = s ∷ finite_scores row

  first_two : List F → Option F × Option F
  first_two [] = (none, none)
  first_two (a ∷ []) = (some a, none)
  first_two (a ∷ b ∷ rest) = (some a, some b)

  -- `_top_two`, where a first `none` is minus infinity.
  unfoldable pub top_two : List (Option F) → Option F × Option F
  unfolding finite_scores first_two
  top_two row = first_two (sorted (λ a b. not (num.lt a b)) (finite_scores row))

  difference : Option F → Option F → Option F
  difference (some a) (some b) = some (num.minus a b)
  difference (some a) none = none
  difference none b = none

  -- `s < t` where `s` may be minus infinity.
  unfoldable pub below : Option F → F → Bool
  below none t = true
  below (some s) t = num.lt s t

  higher : Option F → Option F → Bool
  higher none s = false
  higher (some best) none = true
  higher (some best) (some s) = num.lt s best

  -- `np.argmax`, the first place of the largest entry: the largest entry behind place `n`, if it is
  -- larger than the one that is best so far.
  argmax_from : ℕ → ℕ → Option F → List (Option F) → ℕ
  unfolding higher
  argmax_from n place best [] = place
  argmax_from n place best (s ∷ row) =
      if higher s best then argmax_from (suc n) n s row else argmax_from (suc n) place best row

  unfoldable pub argmax : List (Option F) → ℕ
  unfolding argmax_from
  argmax row = argmax_from 0 0 none row

  -- How many sources with an embedding have their best finite score at this place.
  unfoldable pub claims_of : ℕ → List Bool → Matrix F → ℕ
  unfolding argmax
  claims_of place [] rows = 0
  claims_of place (e ∷ es) [] = 0
  claims_of place (e ∷ es) (row ∷ rows) =
      let rest = claims_of place es rows in
      if e && ((argmax row == place) && not (all is_missing row)) then suc rest else rest

  abbrev pub decided :
      ℕ → Option String → LinkStatus → Option (Option F) → Option F → String → LinkingDecision F
  decided i speaker status score margin reason = record {
    source_track = i;
    session_speaker_id = speaker;
    status = status;
    score = score;
    margin = margin;
    reason = reason;
  }

  -- The best score, which is left out where it is minus infinity.
  best_score : Option F → Option (Option F)
  best_score none = none
  best_score (some s) = some (some s)

  unfoldable pub is_low : Option F → F → Bool
  is_low none threshold = false
  is_low (some m) threshold = num.lt m threshold

  -- The decision on a source that the solver gave to a speaker, under calibrated thresholds.
  unfoldable pub decide_assigned :
      Bool → F → F → ℕ → String → Option F → Option F → Bool → LinkingDecision F
  unfolding below is_low
  decide_assigned constrained accept ambiguous_margin i key score margin contested =
      if constrained && not (is_missing score)
      then decided i (some key) linked (some score) margin "linked_diarization_constrained"
      else if below score accept
      then decided i none LinkStatus.unknown (some score) margin "below_accept_threshold"
      else if is_low margin ambiguous_margin
      then decided i none LinkStatus.ambiguous (some score) margin "low_margin"
      else if contested
      then decided i none LinkStatus.ambiguous (some score) margin "contested_identity"
      else decided i (some key) linked (some score) margin "linked"

  entry : List (Option F) → ℕ → Option F
  entry row j = elim (get_elem? row j) [ none ↦ none | some s ↦ s ]

  unfoldable pub decide_key :
      Bool → F → F → ℕ → List (Option F) → (ℕ → ℕ) → Option (ℕ × String) → LinkingDecision F
  unfolding decide_assigned best_score top_two difference argmax entry
  decide_key constrained accept ambiguous_margin i row owners none =
      decided i none LinkStatus.unknown (best_score (top_two row).0)
        (difference (top_two row).0 (top_two row).1) "assigned_to_unknown"
  decide_key constrained accept ambiguous_margin i row owners (some (j, key)) =
      decide_assigned constrained accept ambiguous_margin i key (entry row j)
        (difference (top_two row).0 (top_two row).1)
        (ltb 1 (owners (argmax row)) && not (j == argmax row))

  -- The decision on a source with an embedding, where both thresholds are there or not.
  unfoldable pub decide_source :
      Bool
      → Option F
      → Option F
      → ℕ
      → List (Option F)
      → (ℕ → ℕ)
      → Option (ℕ × String)
      → LinkingDecision F
  unfolding decide_key best_score top_two difference
  decide_source constrained (some accept) (some ambiguous_margin) i row owners key =
      decide_key constrained accept ambiguous_margin i row owners key
  decide_source constrained none ambiguous_margin i row owners key =
      decided i none LinkStatus.uncalibrated (best_score (top_two row).0)
        (difference (top_two row).0 (top_two row).1) "uncalibrated_threshold"
  decide_source constrained (some accept) none i row owners key =
      decided i none LinkStatus.uncalibrated (best_score (top_two row).0)
        (difference (top_two row).0 (top_two row).1) "uncalibrated_threshold"

  -- The loop over the sources, from the `i`th one on.
  unfoldable pub decide_from :
      Bool
      → LinkingConfig F
      → List String
      → (ℕ → Option ℕ)
      → (ℕ → ℕ)
      → ℕ
      → List Bool
      → Matrix F
      → List (LinkingDecision F)
  unfolding decide_source key_of
  decide_from constrained config keys assignment owners i [] rows = []
  decide_from constrained config keys assignment owners i (e ∷ es) [] = []
  decide_from constrained config keys assignment owners i (e ∷ es) (row ∷ rows) =
      let rest = decide_from constrained config keys assignment owners (suc i) es rows in
      (if e
        then decide_source constrained config.accept_threshold config.ambiguous_margin i row owners
            (key_of keys (assignment i))
        else decided i none LinkStatus.unknown none none "no_embedding")
      ∷ rest
