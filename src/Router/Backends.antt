-- ===== src/Router/Backends.antt =====
-- The routing table: the separators that a decision may name.
use speaker_attributed_stt.Prelude.{
  ℕ, ◌≡◌, subst, String, Bool, true, false, ◌&&◌, ◌||◌, ◌==◌, leb, ltb, Option, none, some, List,
  if-elim, arith,
}
use speaker_attributed_stt.Router.{
  RouteDecision, SourceCountEstimate, CountingEvidence, RouterConfig, route_overlap, route_count,
  route_two, route_three, route_four_or_five, route_many, or_no_evidence,
}

module _ {F : Type 0} (config : RouterConfig F) where
  -- The backends, each with the switch that lets it run.
  pub data IsSwitchedOn : String → Type 0 where
    two_source : IsSwitchedOn config.two_source_backend
    three_source : config.three_source_beta ≡ true → IsSwitchedOn config.three_source_backend
    gss : config.multichannel_gss ≡ true → IsSwitchedOn "gpu_gss"
    research : config.mono_four_five_source_research ≡ true → IsSwitchedOn "multidecoder_dprnn"
    extraction : config.target_speaker_extraction ≡ true → IsSwitchedOn "wesep"

  abbrev OptionOn : Option String → Type 0
  OptionOn none = Unit
  OptionOn (some backend) = IsSwitchedOn backend

  abbrev NamesOn : RouteDecision F → Type 0
  NamesOn d = OptionOn d.backend

  route_count-NamesOn :
      (k : Option ℕ) (count : SourceCountEstimate F) (e : CountingEvidence F) (ws : List String)
      → NamesOn (route_count k count config e ws)
  unfolding route_count route_two route_three route_four_or_five route_many
  route_count-NamesOn none count e ws = two_source
  route_count-NamesOn (some k) count e ws =
      if-elim NamesOn (leb k 2) _ _ (λ _. two_source)
        (λ _.
          if-elim NamesOn (k == 3) _ _
            (λ _. if-elim NamesOn config.three_source_beta _ _ (λ on. three_source on) (λ _. tt))
            (λ _.
              if-elim NamesOn ((k == 4) || (k == 5)) _ _
                (λ _.
                  if-elim NamesOn
                    (config.multichannel_gss && (e.is_multichannel && e.has_activity_guidance)) _ _
                    (λ on. gss (ground arith))
                    (λ _.
                      if-elim NamesOn config.mono_four_five_source_research _ _ (λ on. research on)
                        (λ _. tt)))
                (λ _.
                  if-elim NamesOn (config.target_speaker_extraction && ltb 0 e.enrolled_targets) _ _
                    (λ on. extraction (ground arith)) (λ _. tt))))

  route_overlap-NamesOn :
      (count : SourceCountEstimate F) (evidence : Option (CountingEvidence F)) (osd_positive : Bool)
      → NamesOn (route_overlap count config evidence osd_positive)
  unfolding route_overlap
  route_overlap-NamesOn count evidence true =
      route_count-NamesOn count.count count (or_no_evidence evidence) _
  route_overlap-NamesOn count evidence false = tt

  pub route_overlap-IsSwitchedOn :
      (count : SourceCountEstimate F) (evidence : Option (CountingEvidence F)) (osd_positive : Bool)
      (backend : String)
      → (route_overlap count config evidence osd_positive).backend ≡ some backend
      → IsSwitchedOn backend
  route_overlap-IsSwitchedOn count evidence osd_positive backend h =
      subst OptionOn h (route_overlap-NamesOn count evidence osd_positive)
