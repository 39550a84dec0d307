-- ===== src/Linking/Links.antt =====
-- What `link_sources` promises its caller.
use speaker_attributed_stt.Errors.{>>=-eq-ok}
use speaker_attributed_stt.Session.Creating.Roster.{NoDuplicates}
use speaker_attributed_stt.Linking.Decisions.{
  decide_from-NoDuplicates, decide_source-uncalibrated, is_linked, speaker_of, link_of,
  linked_speakers,
}
use speaker_attributed_stt.Linking.{
  map, get_elem?, suc, ok, Matrix, LinkingDecision, Bool, String, LinkingConfig, Option, ℕ, Scores,
}
use speaker_attributed_stt.Linking.Linker.{present, rejected_from, link_sources, decisions_of}
use speaker_attributed_stt.Linking.Deciding.{key_of, decide_from}
use speaker_attributed_stt.Linking.Matrices.{restrict_to_candidates, build_score_matrix}
use speaker_attributed_stt.Embedding.{SpeakerPrototype, SpeakerEmbedding, Linear}
use speaker_attributed_stt.Prelude.{
  sym, subst, ap, ◌≡◌, ◌⊎◌, List, [], ◌∷◌, none, some, refl, true, false, ◌∙◌,
}

module _ {V F : Type 0} (vectors : Linear V F) (num : Scores F)
    (solve : List (List F) → ℕ → Option ℕ) where
  rejected_from-links :
      (i : ℕ) (es : List (Option (SpeakerEmbedding V F)))
      → linked_speakers (rejected_from {F = F} i es) ≡ []
  unfolding rejected_from linked_speakers link_of speaker_of is_linked
  rejected_from-links i [] = refl
  rejected_from-links i (e ∷ es) = rejected_from-links (suc i) es

  decide_from-uncalibrated :
      (constrained : Bool) (config : LinkingConfig F) (keys : List String)
      (assignment : ℕ → Option ℕ) (owners : ℕ → ℕ) (i : ℕ) (es : List Bool) (rows : Matrix F)
      → (config.accept_threshold ≡ none) ⊎ (config.ambiguous_margin ≡ none)
      → linked_speakers (decide_from num constrained config keys assignment owners i es rows) ≡ []
  unfolding decide_from linked_speakers link_of speaker_of is_linked
  decide_from-uncalibrated constrained config keys assignment owners i [] rows h = refl
  decide_from-uncalibrated constrained config keys assignment owners i (e ∷ es) [] h = refl
  decide_from-uncalibrated constrained config keys assignment owners i (true ∷ es) (row ∷ rows) h =
      let first =
        decide_source-uncalibrated num constrained config.accept_threshold config.ambiguous_margin i
          row owners (key_of keys (assignment i)) h in
      rw first
        (decide_from-uncalibrated constrained config keys assignment owners (suc i) es rows h)
  decide_from-uncalibrated constrained config keys assignment owners i (false ∷ es) (row ∷ rows) h =
      decide_from-uncalibrated constrained config keys assignment owners (suc i) es rows h

  decisions_of-uncalibrated :
      (es : List (Option (SpeakerEmbedding V F))) (config : LinkingConfig F)
      (previous : List (ℕ × String)) (constrained : Bool) (keys : List String) (base : Matrix F)
      → (config.accept_threshold ≡ none) ⊎ (config.ambiguous_margin ≡ none)
      → linked_speakers (decisions_of vectors num solve es config previous constrained keys base)
        ≡ []
  unfolding decisions_of
  decisions_of-uncalibrated es config previous constrained [] base h = rejected_from-links 0 es
  decisions_of-uncalibrated es config previous constrained (k ∷ ks) base h =
      decide_from-uncalibrated constrained config (k ∷ ks) _ _ 0 (present es) base h

  decisions_of-NoDuplicates :
      (es : List (Option (SpeakerEmbedding V F))) (config : LinkingConfig F)
      (previous : List (ℕ × String)) (constrained : Bool) (keys : List String) (base : Matrix F)
      → ((m : List (List F)) (i k j : ℕ) → solve m i ≡ some j → solve m k ≡ some j → i ≡ k)
      → ((i k : ℕ) (key : String)
          → get_elem? keys i ≡ some key
          → get_elem? keys k ≡ some key
          → i ≡ k)
      → NoDuplicates (
          linked_speakers (decisions_of vectors num solve es config previous constrained keys base))
  unfolding decisions_of
  decisions_of-NoDuplicates es config previous constrained [] base one_each same_place =
      subst NoDuplicates (sym (rejected_from-links 0 es)) tt
  decisions_of-NoDuplicates es config previous constrained (k ∷ ks) base one_each same_place =
      decide_from-NoDuplicates num constrained config (k ∷ ks) _ _ (one_each _) same_place 0
        (present es) base

  link_sources-eq-ok :
      (es : List (Option (SpeakerEmbedding V F))) (prototypes : List (SpeakerPrototype V F))
      (config : LinkingConfig F) (previous : List (ℕ × String)) (candidates : List String)
      (constrained : Bool) (ds : List (LinkingDecision F))
      → link_sources vectors num solve es prototypes config previous candidates constrained ≡ ok ds
      → (base : Matrix F) × (ds
          ≡ decisions_of vectors num solve es config previous constrained
              (map (λ p. p.speaker_key) prototypes)
              base)
  unfolding link_sources
  link_sources-eq-ok es prototypes config previous candidates constrained ds h =
      let (matrix, built, rest) = >>=-eq-ok (build_score_matrix vectors es prototypes) _ h in
      (restrict_to_candidates matrix (map (λ p. p.speaker_key) prototypes) candidates, cc)

  -- Where an acceptance threshold or a margin is not configured, no source is linked to a speaker.
  pub link_sources_uncalibrated :
      (es : List (Option (SpeakerEmbedding V F))) (prototypes : List (SpeakerPrototype V F))
      (config : LinkingConfig F) (previous : List (ℕ × String)) (candidates : List String)
      (constrained : Bool) (ds : List (LinkingDecision F))
      → (config.accept_threshold ≡ none) ⊎ (config.ambiguous_margin ≡ none)
      → link_sources vectors num solve es prototypes config previous candidates constrained ≡ ok ds
      → linked_speakers ds ≡ []
  link_sources_uncalibrated es prototypes config previous candidates constrained ds missing h =
      let (base, e) =
        link_sources-eq-ok es prototypes config previous candidates constrained ds h in
      ap linked_speakers e ∙ decisions_of-uncalibrated es config previous constrained _ base missing

  -- When the solver gives a column to one row at most and the prototypes have different keys, no two
  -- sources are linked to one speaker.
  pub link_sources-NoDuplicates :
      (es : List (Option (SpeakerEmbedding V F))) (prototypes : List (SpeakerPrototype V F))
      (config : LinkingConfig F) (previous : List (ℕ × String)) (candidates : List String)
      (constrained : Bool) (ds : List (LinkingDecision F))
      → ((m : List (List F)) (i k j : ℕ) → solve m i ≡ some j → solve m k ≡ some j → i ≡ k)
      → ((i k : ℕ) (key : String)
          → get_elem? (map (λ p. p.speaker_key) prototypes) i ≡ some key
          → get_elem? (map (λ p. p.speaker_key) prototypes) k ≡ some key
          → i ≡ k)
      → link_sources vectors num solve es prototypes config previous candidates constrained ≡ ok ds
      → NoDuplicates (linked_speakers ds)
  link_sources-NoDuplicates es prototypes config previous candidates constrained ds one_each places
        h =
      let (base, e) =
        link_sources-eq-ok es prototypes config previous candidates constrained ds h in
      subst (λ x. NoDuplicates (linked_speakers x)) (sym e)
        (decisions_of-NoDuplicates es config previous constrained _ base one_each places)
