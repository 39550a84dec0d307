-- ===== src/Offline/Reconciling.antt =====
-- src/sastt/application/offline_pipeline.py: the second pass over the provisional speakers leaves the
-- merges of the session a forest.
use speaker_attributed_stt.Prelude.{
  ℕ, String, Bool, true, false, ◌≡◌, refl, sym, subst, inl, inr, Option, none, some, List, [], ◌∷◌,
  Bool-cases, arith,
}
use speaker_attributed_stt.Errors.{Result-cases}
use speaker_attributed_stt.Exec.Preserves.{Preserves}
use speaker_attributed_stt.Embedding.{Linear, SpeakerPrototype}
use speaker_attributed_stt.Session.{Session, SessionSpeaker, active, get, provisional_speakers}
use speaker_attributed_stt.Session.Merging.{can_merge, merge, merge_change, merged_machine}
use speaker_attributed_stt.Session.Merging.Forest.{IsForest}
use speaker_attributed_stt.Session.Merging.Leads.{merge-IsForest}
use speaker_attributed_stt.Linking.{LinkingConfig, Scores}
use speaker_attributed_stt.Offline.Speakers.{
  reconcile_with, merge_if, reconcile_all, reconcile_if_any, target_for, now_of, global_prototypes,
  reconcile_temporary_speakers,
}

module _ {V F : Type 0} where
  can_merge_reads : (a b : String) (s : Session V F) → (can_merge a b s).1 ≡ s
  unfolding can_merge
  can_merge_reads a b s = elim (Result-cases (get s a)) [
    | inl (e, q) ↦ rw q refl
    | inr (source, q) ↦ elim (Result-cases (get s b)) [
      | inl (e, r) ↦ rw (q, r) refl
      | inr (target, r) ↦ rw (q, r) refl
    ]
  ]

  -- What a merge that passed the checks makes of the machine decides whether it writes.
  merge-Preserves : (a b reason : String) → Preserves IsForest (merge {V = V} {F = F} a b reason)
  unfolding merge
  merge-Preserves a b reason s f = elim (Result-cases (get s a)) [
    | inl (e, q) ↦ rw q f
    | inr (source, ga) ↦ elim (Result-cases (get s b)) [
      | inl (e, q) ↦ rw (ga, q) f
      | inr (target, gb) ↦
          let x = source.session_speaker_id in
          let y = target.session_speaker_id in
          let same = can_merge_reads x y s in
          elim (Result-cases (can_merge x y s).0) [
            | inl (e, q) ↦ rw (ga, gb, q, same) f
            | inr (allowed, q) ↦ elim (Bool-cases allowed) [
              | inr barred ↦ rw (ga, gb, q, same, barred) f
              | inl may ↦ elim (Result-cases (merged_machine source.machine reason)) [
                | inl (e, r) ↦ rw (ga, gb, q, same, may, r) f
                | inr (machine, r) ↦
                    merge-IsForest s (merge a b reason s).1 a b reason
                      (merge_change source target reason) source target f ga gb
                      (rw (ga, gb, q, same, may, r) refl)
              ]
            ]
          ]
    ]
  ]

  can_merge-Preserves : (P : Session V F → Type 0) (a b : String) → Preserves P (can_merge a b)
  can_merge-Preserves P a b s f = subst P (sym (can_merge_reads a b s)) f

  merge_if-Preserves :
      (allowed : Bool) (a b : String) → Preserves IsForest (merge_if {V = V} {F = F} allowed a b)
  unfolding merge_if
  merge_if-Preserves false a b s f = f
  merge_if-Preserves true a b s f =
      let h = merge-Preserves a b "overlap_start_reconciliation" s f in ground arith

  reconcile_with-Preserves :
      (id : String) (target : Option String)
      → Preserves IsForest (reconcile_with {V = V} {F = F} id target)
  unfolding reconcile_with
  reconcile_with-Preserves id none s f = f
  reconcile_with-Preserves id (some target) s f =
      let same = can_merge_reads id target s in
      elim (Result-cases (can_merge id target s).0) [
        | inl (e, q) ↦ rw (q, same) f
        | inr (allowed, q) ↦ rw (q, same) (merge_if-Preserves allowed id target s f)
      ]

  module _ (vectors : Linear V F) (num : Scores F) (solve : List (List F) → ℕ → Option ℕ) (one : F)
      (config : LinkingConfig F) where
    reconcile_all-Preserves :
        (prototypes : List (SpeakerPrototype V F)) (ks : List (SessionSpeaker V F))
        → Preserves IsForest (reconcile_all vectors num solve one config prototypes ks)
    unfolding reconcile_all
    reconcile_all-Preserves prototypes [] s f = f
    reconcile_all-Preserves prototypes (k ∷ ks) s f =
        elim (Result-cases (
          target_for vectors num solve one config prototypes s.config.minimum_speech_ms
            (now_of k s).prototype)) [
              | inl (e, q) ↦ rw q f
              | inr (target, q) ↦ rw q (
                  let m = reconcile_with k.session_speaker_id target in
                  let h1 = reconcile_with-Preserves k.session_speaker_id target s f in
                  let h2 = reconcile_all-Preserves prototypes ks (m s).1 h1 in ground arith)
            ]

    reconcile_if_any-Preserves :
        (prototypes : List (SpeakerPrototype V F)) (ks : List (SessionSpeaker V F))
        → Preserves IsForest (reconcile_if_any vectors num solve one config prototypes ks)
    unfolding reconcile_if_any
    reconcile_if_any-Preserves [] ks s f = f
    reconcile_if_any-Preserves (p ∷ ps) ks s f = reconcile_all-Preserves (p ∷ ps) ks s f

    -- Whatever the scores, the solver and the embeddings say, and also where it stops by an
    -- exception: the second pass over the provisional speakers of a session whose merges form a
    -- forest leaves them a forest.
    pub reconcile_temporary_speakers-IsForest :
        (s : Session V F)
        → IsForest s
        → IsForest (reconcile_temporary_speakers vectors num solve one config s).1
    unfolding reconcile_temporary_speakers
    reconcile_temporary_speakers-IsForest s f =
        reconcile_if_any-Preserves (global_prototypes (active s)) (provisional_speakers s) s f
