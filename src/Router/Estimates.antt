-- ===== src/Router/Estimates.antt =====
-- When an estimate of the number of sources is certain, and what confidence it claims.
use speaker_attributed_stt.Router.{
  multichannel_activity, ts_vad, SourceCountEstimate, CountMethod, CountingEvidence, RouterConfig,
  estimate_source_count, research_or, confident_or, diarized_or_two,
}
use speaker_attributed_stt.Prelude.{
  if-elim, false, ℕ, true, Option, Bool, ◌≡◌, none, some, refl, ◌⊎◌, inl, inr,
}
use speaker_attributed_stt.Prelude.Dict.{is_some}

module _ {F : Type 0} where
  -- An estimate always has a count, and either it is flagged uncertain and claims no confidence, or
  -- it rests on evidence that the configuration admits: a confidence that reaches the minimum, or
  -- the research counter that is switched on.
  unfoldable pub Grounded : (F → F → Bool) → RouterConfig F → SourceCountEstimate F → Type 0
  Grounded ge config x =
      (is_some x.count ≡ true)
      × (((x.count_uncertain ≡ true) × (x.confidence ≡ none))
          ⊎ ((x.count_uncertain ≡ false)
              × (((c : F) × (x.confidence ≡ some c) × (ge c config.minimum_confidence ≡ true))
                  ⊎ (config.mono_four_five_source_research ≡ true))))

  confident_or-Grounded :
      (ge : F → F → Bool) (config : RouterConfig F) (method : CountMethod) (n : Option ℕ)
      (c : Option F) (otherwise : SourceCountEstimate F)
      → Grounded ge config otherwise
      → Grounded ge config (confident_or ge config.minimum_confidence method n c otherwise)
  unfolding Grounded confident_or
  confident_or-Grounded ge config method none c otherwise h = h
  confident_or-Grounded ge config method (some n) none otherwise h = h
  confident_or-Grounded ge config method (some n) (some c) otherwise h =
      if-elim (Grounded ge config) (ge c config.minimum_confidence) _ _
        (λ reaches. (refl, inr (refl, inl (c, refl, reaches)))) (λ _. h)

  research_or-Grounded :
      (ge : F → F → Bool) (config : RouterConfig F) (research : Bool) (n : Option ℕ) (c : Option F)
      (otherwise : SourceCountEstimate F)
      → config.mono_four_five_source_research ≡ research
      → Grounded ge config otherwise
      → Grounded ge config (research_or research n c otherwise)
  unfolding Grounded research_or
  research_or-Grounded ge config false n c otherwise e h = h
  research_or-Grounded ge config true none c otherwise e h = h
  research_or-Grounded ge config true (some n) c otherwise e h = (refl, inr (refl, inr e))

  diarized_or_two-Grounded :
      (ge : F → F → Bool) (config : RouterConfig F) (n : Option ℕ)
      → Grounded ge config (diarized_or_two n)
  unfolding Grounded diarized_or_two
  diarized_or_two-Grounded ge config none = (refl, inl (refl, refl))
  diarized_or_two-Grounded ge config (some n) = (refl, inl (refl, refl))

  -- Every estimate of the evidence has a count, and either it is flagged uncertain and claims no
  -- confidence, or it claims a confidence that reaches the configured minimum, or the research
  -- counter is switched on.
  pub estimate_source_count-Grounded :
      (ge : F → F → Bool) (e : CountingEvidence F) (config : RouterConfig F)
      → Grounded ge config (estimate_source_count ge e config)
  unfolding estimate_source_count
  estimate_source_count-Grounded ge e config =
      confident_or-Grounded ge config ts_vad e.roster_active_speakers e.roster_confidence _ (
        confident_or-Grounded ge config multichannel_activity e.multichannel_activity_speakers
          e.multichannel_confidence _
          (research_or-Grounded ge config config.mono_four_five_source_research e.research_estimate
            e.research_confidence _ refl
            (diarized_or_two-Grounded ge config e.diarization_active_speakers)))
