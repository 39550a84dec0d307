-- ===== src/Fusion/Attribution.antt =====
-- The turn that `attribute_word` picks.
use speaker_attributed_stt.Fusion.{
  no_turn, true, any, ◌∷◌, str_eq, Bool, SpeakerTurn, Best, List, consider, best_turn,
}
use speaker_attributed_stt.Audio.Interval.{intersection_ms, TimeInterval}
use speaker_attributed_stt.Session.{Session}
use speaker_attributed_stt.Prelude.{
  ◌==◌, sym, ap, ◌∙◌, ◌&&◌, eq_refl, [], ◌∷◌, ◌<◌, arith, ◌⊎◌, ◌≤◌, ℕ, String, Option, ◌≡◌, inl,
  inr, some, refl, All,
}

module _ {V F : Type 0} (s : Session V F) (word : TimeInterval) (previous : Option String) where
  consider-ge :
      (best : Best) (turn : SpeakerTurn)
      → (best.overlap ≤ (consider s word previous best turn).overlap)
        × (intersection_ms turn.interval word ≤ (consider s word previous best turn).overlap)
  unfolding consider
  consider-ge best turn = ground arith

  best_turn-ge :
      (turns : List SpeakerTurn) (best : Best)
      → best.overlap ≤ (best_turn s word previous best turns).overlap
  unfolding best_turn
  best_turn-ge [] best = omega arith
  best_turn-ge (turn ∷ turns) best =
      let next = consider s word previous best turn in
      omega (arith, (consider-ge best turn).0, best_turn-ge turns next)

  best_turn-largest :
      (turns : List SpeakerTurn) (best : Best)
      → All
          (λ t. intersection_ms t.interval word ≤ (best_turn s word previous best turns).overlap)
          turns
  unfolding best_turn
  best_turn-largest [] best = tt
  best_turn-largest (turn ∷ turns) best =
      let next = consider s word previous best turn in
      (
        omega (arith, (consider-ge best turn).1, best_turn-ge turns next),
        best_turn-largest turns next,
      )

  -- Whether a turn has this cluster and shares this much time with the word.
  abbrev pub has_share : String → ℕ → SpeakerTurn → Bool
  has_share cluster overlap turn =
      str_eq turn.cluster_id cluster && (intersection_ms turn.interval word == overlap)

  consider-source :
      (best : Best) (turn : SpeakerTurn)
      → (consider s word previous best turn ≡ best)
        ⊎ (((consider s word previous best turn).cluster ≡ some turn.cluster_id)
            × (0 < (consider s word previous best turn).overlap)
            × (intersection_ms turn.interval word ≡ (consider s word previous best turn).overlap))
  unfolding consider
  consider-source best turn = ground arith

  has_share_self :
      (turn : SpeakerTurn) (n : ℕ) (turns : List SpeakerTurn)
      → intersection_ms turn.interval word ≡ n
      → any (has_share turn.cluster_id n) (turn ∷ turns) ≡ true
  has_share_self turn n turns e =
      let same = eq_refl turn.cluster_id in
      let equal : (intersection_ms turn.interval word == n) ≡ true = ground arith in
      rw (same, equal) refl

  any-later :
      (p : SpeakerTurn → Bool) (turn : SpeakerTurn) (turns : List SpeakerTurn)
      → any p turns ≡ true
      → any p (turn ∷ turns) ≡ true
  any-later p turn turns h = ground arith

  abbrev Source : Best → Best → List SpeakerTurn → Type 0
  Source r best turns =
      (r ≡ best)
      ⊎ ((c : String) × (r.cluster ≡ some c)
          × (0 < r.overlap)
          × (any (has_share c r.overlap) turns ≡ true))

  Source-later :
      (best next r : Best) (turn : SpeakerTurn) (turns : List SpeakerTurn)
      → (next ≡ best)
        ⊎ ((next.cluster ≡ some turn.cluster_id)
            × (0 < next.overlap)
            × (intersection_ms turn.interval word ≡ next.overlap))
      → Source r next turns
      → Source r best (turn ∷ turns)
  Source-later best next r turn turns (inl kept) (inl same) = inl (same ∙ kept)
  Source-later best next r turn turns (inr (at, more, share)) (inl same) = inr (
    turn.cluster_id,
    ap (λ b. b.cluster) same ∙ at,
    omega (arith, ap (λ b. b.overlap) same),
    has_share_self turn r.overlap turns (share ∙ sym (ap (λ b. b.overlap) same)),
  )
  Source-later best next r turn turns first (inr (c, at, more, there)) =
      inr (c, at, more, any-later (has_share c r.overlap) turn turns there)

  best_turn-source :
      (turns : List SpeakerTurn) (best : Best)
      → (best_turn s word previous best turns ≡ best)
        ⊎ ((c : String) × ((best_turn s word previous best turns).cluster ≡ some c)
            × (0 < (best_turn s word previous best turns).overlap)
            × (any (has_share c (best_turn s word previous best turns).overlap) turns ≡ true))
  unfolding best_turn
  best_turn-source [] best = inl refl
  best_turn-source (turn ∷ turns) best =
      Source-later best (consider s word previous best turn) _ turn turns
        (consider-source best turn) (best_turn-source turns (consider s word previous best turn))

  -- The turn with the most time in common with the word wins: no turn of the list has more than the
  -- one that is picked, which is in the list, and none is picked only when no turn has any.
  pub best_turn-IsLargest :
      (turns : List SpeakerTurn)
      → All
          (λ t. intersection_ms t.interval word ≤ (best_turn s word previous no_turn turns).overlap)
          turns
        × ((best_turn s word previous no_turn turns ≡ no_turn)
            ⊎ ((c : String) × ((best_turn s word previous no_turn turns).cluster ≡ some c)
                × (0 < (best_turn s word previous no_turn turns).overlap)
                × (any (has_share c (best_turn s word previous no_turn turns).overlap) turns
                    ≡ true)))
  best_turn-IsLargest turns = (best_turn-largest turns no_turn, best_turn-source turns no_turn)
