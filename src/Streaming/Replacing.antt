-- ===== src/Streaming/Replacing.antt =====
-- src/sastt/application/streaming_pipeline.py: the events that the final pass prepares to replace.
use speaker_attributed_stt.Prelude.{
  ◌≡◌, refl, sym, subst, String, false, inl, inr, Option, none, some, List, [], ◌∷◌, str_eq, All,
  All-map, arith, Option-cases, eq_iff,
}
use speaker_attributed_stt.Errors.{ok, Result-cases}
use speaker_attributed_stt.Transcript.{TranscriptSegment}
use speaker_attributed_stt.Streaming.{Emitted, Ports, Stream}
use speaker_attributed_stt.Streaming.Rolling.{stage}
use speaker_attributed_stt.Streaming.Superseding.{superseded_event_id, contains}
use speaker_attributed_stt.Streaming.Finishing.{
  prepare, wanted, used_with, prior_of, reconcile, on_speakers,
}
use speaker_attributed_stt.Streaming.Choosing.{superseded_event_id-Chosen, superseded-fresh}

-- The ids that the prepared segments replace.
unfoldable pub replaced : {F : Type 0} → List (TranscriptSegment F × Option String) → List String
replaced [] = []
replaced ((g, none) ∷ rest) = replaced rest
replaced ((g, some id) ∷ rest) = id ∷ replaced rest

-- Pairwise different.
abbrev pub Distinct : List String → Type 0
Distinct [] = Unit
Distinct (x ∷ xs) = (contains xs x ≡ false) × Distinct xs

contains-swap :
    (id : String) (ids : List String) → All (λ y. str_eq y id ≡ false) ids → contains ids id ≡ false
contains-swap id [] h = refl
contains-swap id (y ∷ ys) h = ground (arith, eq_iff y id, eq_iff id y, contains-swap id ys h.1)

fresh-head :
    (id : String) (used ids : List String)
    → All (λ y. contains (id ∷ used) y ≡ false) ids
    → All (λ y. str_eq y id ≡ false) ids
fresh-head id used ids h = All-map _ _ ids (λ y e. ground arith) h

fresh-tail :
    (id : String) (used ids : List String)
    → All (λ y. contains (id ∷ used) y ≡ false) ids
    → All (λ y. contains used y ≡ false) ids
fresh-tail id used ids h = All-map _ _ ids (λ y e. ground arith) h

-- Chosen one after the other, the ids are new and pairwise different.
module _ {A V F G W : Type 0} (p : Ports A V F G W) where
  -- The segments with the events they replace, from the events that were emitted alone.
  assign :
      List Emitted
      → List (TranscriptSegment F)
      → List String
      → List (TranscriptSegment F × Option String)
  assign es [] used = []
  assign es (g ∷ rest) used =
      let x = superseded_event_id (wanted p g) used es in
      (g, x) ∷ assign es rest (used_with p used x)

  prepare-eq-assign :
      (gs : List (TranscriptSegment F)) (used : List String) (s : Stream A V F W)
      (l : List (TranscriptSegment F × Option String))
      → (prepare p gs used s).0 ≡ ok l
      → l ≡ assign s.emitted gs used
  unfolding prepare assign stage
  prepare-eq-assign [] used s l h = cc
  prepare-eq-assign (g ∷ rest) used s l h =
      let x = superseded_event_id (wanted p g) used s.emitted in
      let m = on_speakers p (reconcile p (prior_of p s.emitted x) g) in
      let s1 = (m s).1 in
      elim (Result-cases (m s).0) [
        | inl (e, q) ↦ let k = rw q at h in cc
        | inr (u, q) ↦ elim (Result-cases (prepare p rest (used_with p used x) s1).0) [
          | inl (e, r) ↦ let k = rw (q, r) at h in cc
          | inr (others, r) ↦
              let k = rw (q, r) at h in
              let ih = prepare-eq-assign rest (used_with p used x) s1 others r in ground arith
        ]
      ]

  assign-Distinct :
      (es : List Emitted) (gs : List (TranscriptSegment F)) (used : List String)
      → Distinct (replaced (assign es gs used))
        × All (λ id. contains used id ≡ false) (replaced (assign es gs used))
  unfolding assign replaced
  assign-Distinct es [] used = (tt, tt)
  assign-Distinct es (g ∷ rest) used =
      elim (Option-cases (superseded_event_id (wanted p g) used es)) [
        | inl e ↦ rw e (assign-Distinct es rest used)
        | inr (id, e) ↦ rw e (
            let ih = assign-Distinct es rest (id ∷ used) in
            let ids = replaced (assign es rest (id ∷ used)) in
            let fresh =
              superseded-fresh (wanted p g) used es _
                (superseded_event_id-Chosen (wanted p g) used es) id e in
            (
              (contains-swap id ids (fresh-head id used ids ih.1), ih.0),
              (fresh, fresh-tail id used ids ih.1),
            ))
      ]

  -- However the final pass goes on, of the events that it prepares to replace no two are the same: a
  -- provisional event is replaced at most once.
  pub prepare-Distinct :
      (gs : List (TranscriptSegment F)) (s : Stream A V F W)
      (l : List (TranscriptSegment F × Option String))
      → (prepare p gs [] s).0 ≡ ok l
      → Distinct (replaced l)
  prepare-Distinct gs s l h =
      subst (λ l. Distinct (replaced l)) (sym (prepare-eq-assign gs [] s l h))
        (assign-Distinct s.emitted gs []).0
