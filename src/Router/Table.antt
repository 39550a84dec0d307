-- ===== src/Router/Table.antt =====
-- The routing table: what each route may ask of a separator, and when a count is certain.
use speaker_attributed_stt.Router.{
  or_no_evidence, route_many, route_four_or_five, route_three, route_two, is_separating,
  SourceCountEstimate, runs_separation, route_count, RouterConfig, CountingEvidence, RouteDecision,
  route_overlap,
}
use speaker_attributed_stt.Prelude.{
  if-elim, arith, ltb, String, List, leb, false, true, ℕ, Bool, Option, ◌≡◌, none, some, refl, ◌&&◌,
  ◌||◌, ◌==◌,
}
use speaker_attributed_stt.Prelude.Dict.{is_some}

unfoldable pub at_most_two : Option ℕ → Bool
at_most_two none = true
at_most_two (some n) = leb n 2

module _ {F : Type 0} where
  -- A decision that runs a separator asks for sources, names a backend and carries no error code;
  -- one that runs none asks for none and names no backend.
  unfoldable pub Consistent : RouteDecision F → Type 0
  Consistent d =
      (is_some d.requested_source_count ≡ runs_separation d)
      × (is_some d.backend ≡ runs_separation d)
      × (runs_separation d && is_some d.error_code ≡ false)

  route_count-Consistent :
      (k : Option ℕ) (count : SourceCountEstimate F) (config : RouterConfig F)
      (e : CountingEvidence F) (warnings : List String)
      → Consistent (route_count k count config e warnings)
  unfolding Consistent route_count route_two route_three route_four_or_five route_many is_separating
  route_count-Consistent none count config e warnings = (refl, refl, refl)
  route_count-Consistent (some k) count config e warnings =
      if-elim Consistent (leb k 2) _ _ (λ _. (refl, refl, refl))
        (λ _.
          if-elim Consistent (k == 3) _ _
            (λ _.
              if-elim Consistent config.three_source_beta _ _ (λ _. (refl, refl, refl))
                (λ _. (refl, refl, refl)))
            (λ _.
              if-elim Consistent ((k == 4) || (k == 5)) _ _
                (λ _.
                  if-elim Consistent
                    (config.multichannel_gss && (e.is_multichannel && e.has_activity_guidance)) _ _
                    (λ _. (refl, refl, refl))
                    (λ _.
                      if-elim Consistent config.mono_four_five_source_research _ _
                        (λ _. (refl, refl, refl)) (λ _. (refl, refl, refl))))
                (λ _.
                  if-elim Consistent (config.target_speaker_extraction && ltb 0 e.enrolled_targets)
                    _ _ (λ _. (refl, refl, refl)) (λ _. (refl, refl, refl)))))

  -- For every count, configuration and evidence: a decision that runs a separator asks for a number
  -- of sources, names a backend and carries no error code, and one that runs none asks for none and
  -- names no backend.
  pub route_overlap-Consistent :
      (count : SourceCountEstimate F) (config : RouterConfig F)
      (evidence : Option (CountingEvidence F)) (osd_positive : Bool)
      → Consistent (route_overlap count config evidence osd_positive)
  unfolding Consistent route_overlap is_separating
  route_overlap-Consistent count config evidence true =
      route_count-Consistent count.count count config (or_no_evidence evidence) _
  route_overlap-Consistent count config evidence false = (refl, refl, refl)

  route_count-at_most_two :
      (k : Option ℕ) (count : SourceCountEstimate F) (config : RouterConfig F)
      (e : CountingEvidence F) (warnings : List String)
      → config.three_source_beta ≡ false
      → config.multichannel_gss ≡ false
      → config.mono_four_five_source_research ≡ false
      → config.target_speaker_extraction ≡ false
      → at_most_two (route_count k count config e warnings).requested_source_count ≡ true
  unfolding at_most_two route_count route_two route_three route_four_or_five route_many
  route_count-at_most_two none count config e warnings h3 hm hr ht = refl
  route_count-at_most_two (some k) count config e warnings h3 hm hr ht =
      let P : RouteDecision F → Type 0 = λ d. at_most_two d.requested_source_count ≡ true in
      if-elim P (leb k 2) _ _ (λ _. refl)
        (λ _.
          if-elim P (k == 3) _ _
            (λ _. if-elim P config.three_source_beta _ _ (λ on. absurd cc) (λ _. refl))
            (λ _.
              if-elim P ((k == 4) || (k == 5)) _ _
                (λ _.
                  if-elim P
                    (config.multichannel_gss && (e.is_multichannel && e.has_activity_guidance)) _ _
                    (λ on. absurd (ground arith))
                    (λ _.
                      if-elim P config.mono_four_five_source_research _ _ (λ on. absurd cc)
                        (λ _. refl)))
                (λ _.
                  if-elim P (config.target_speaker_extraction && ltb 0 e.enrolled_targets) _ _
                    (λ on. absurd (ground arith)) (λ _. refl))))

  -- With the four flags for more than two sources off, no count and no evidence makes the router ask
  -- for more than two.
  pub route_overlap-at_most_two :
      (count : SourceCountEstimate F) (config : RouterConfig F)
      (evidence : Option (CountingEvidence F)) (osd_positive : Bool)
      → config.three_source_beta ≡ false
      → config.multichannel_gss ≡ false
      → config.mono_four_five_source_research ≡ false
      → config.target_speaker_extraction ≡ false
      → at_most_two (route_overlap count config evidence osd_positive).requested_source_count ≡ true
  unfolding at_most_two route_overlap
  route_overlap-at_most_two count config evidence true h3 hm hr ht =
      route_count-at_most_two count.count count config (or_no_evidence evidence) _ h3 hm hr ht
  route_overlap-at_most_two count config evidence false h3 hm hr ht = refl
