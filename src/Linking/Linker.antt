-- ===== src/Linking/Linker.antt =====
-- `link_sources`, from embeddings and prototypes to decisions.
use speaker_attributed_stt.Linking.Deciding.{claims_of, decide_from}
use speaker_attributed_stt.Linking.Matrices.{
  solvable, restrict_to_candidates, build_score_matrix, apply_continuity_bonus,
}
use speaker_attributed_stt.Linking.{
  Matrix, LinkingConfig, LinkStatus, is_missing, Scores, LinkingDecision,
}
use speaker_attributed_stt.Prelude.{
  if◌then◌else◌, String, ℕ, suc, Bool, true, false, not, Option, none, some, List, [], ◌∷◌, map,
}
use speaker_attributed_stt.Errors.{Result, ok, ◌>>=◌}
use speaker_attributed_stt.Embedding.{Linear, SpeakerEmbedding, SpeakerPrototype}

module _ {V F : Type 0} where
  unfoldable pub present : List (Option (SpeakerEmbedding V F)) → List Bool
  present es = map (λ e. not (is_missing e)) es

  -- With no prototype nothing is linked.
  unfoldable pub rejected_from : ℕ → List (Option (SpeakerEmbedding V F)) → List (LinkingDecision F)
  rejected_from i [] = []
  rejected_from i (e ∷ es) =
      record {
        source_track = i;
        session_speaker_id = none;
        status = LinkStatus.unknown;
        score = none;
        margin = none;
        reason = if is_missing e then "no_embedding" else "no_prototype";
      }
      ∷ rejected_from (suc i) es

module _ {V F : Type 0} (vectors : Linear V F) (num : Scores F)
    (solve : List (List F) → ℕ → Option ℕ) where
  dummy_value : Bool → Option F → Option F
  dummy_value true threshold = none
  dummy_value false none = some num.nought
  dummy_value false (some threshold) = some threshold

  unfoldable pub decisions_of :
      List (Option (SpeakerEmbedding V F))
      → LinkingConfig F
      → List (ℕ × String)
      → Bool
      → List String
      → Matrix F
      → List (LinkingDecision F)
  unfolding rejected_from apply_continuity_bonus solvable dummy_value decide_from present claims_of
  decisions_of es config previous constrained [] base = rejected_from 0 es
  decisions_of es config previous constrained (k ∷ ks) base =
      let scored = apply_continuity_bonus num base (k ∷ ks) previous config.continuity_bonus in
      let assignment =
        solve (solvable num scored (dummy_value constrained config.accept_threshold)) in
      decide_from num constrained config (k ∷ ks) assignment
        (λ place. claims_of num place (present es) base) 0 (present es) base

  -- `link_sources`: the decisions. Metrics are left out.
  unfoldable pub link_sources :
      List (Option (SpeakerEmbedding V F))
      → List (SpeakerPrototype V F)
      → LinkingConfig F
      → List (ℕ × String)
      → List String
      → Bool
      → Result (List (LinkingDecision F))
  unfolding build_score_matrix restrict_to_candidates decisions_of
  link_sources es prototypes config previous candidates constrained = do
    matrix ← build_score_matrix vectors es prototypes
    let keys = map (λ p. p.speaker_key) prototypes
    ok (
        decisions_of es config previous constrained keys
          (restrict_to_candidates matrix keys candidates))
