-- ===== src/Session/Evidence/Rollback.antt =====
-- A prototype update is undone by `rollback_prototype`.
use speaker_attributed_stt.Session.{Session, SessionSpeaker}
use speaker_attributed_stt.Session.Evidence.Gates.{update_prototype-run}
use speaker_attributed_stt.Prelude.Dict.{put_self}
use speaker_attributed_stt.Errors.{err, Result, ok, Result-cases}
use speaker_attributed_stt.Embedding.{
  SpeakerEmbedding, SpeakerPrototype, updated_with, from_embedding, Linear,
}
use speaker_attributed_stt.Session.Evidence.{
  write, reason_updated, accepted_as, reason_created, absorb, update_prototype, get,
  PrototypeUpdate, restored, rollback_prototype, pop,
}
use speaker_attributed_stt.Prelude.{
  subst, inr, inl, ◌∙◌, sym, refl, ap, true, arith, ◌+◌, Bool, [], Option, none, some, ◌∷◌, String,
  ◌++◌, List, ◌≡◌,
}

pop-append : {A : Type 0} (xs : List A) (y : A) → pop (xs ++ y ∷ []) ≡ some (xs, y)
unfolding pop
pop-append [] y = refl
pop-append (x ∷ xs) y = rw (pop-append xs y) refl

module _ {V F : Type 0} (num : Linear V F) where
  rollback_prototype-undoes :
      (speaker : SessionSpeaker V F) (old p : SpeakerPrototype V F)
      → speaker.prototype ≡ some old
      → rollback_prototype (record speaker {
        prototype = some p;
        prototype_history = speaker.prototype_history ++ old ∷ [];
      })
        ≡ speaker
  unfolding rollback_prototype restored
  rollback_prototype-undoes speaker old p h =
      rw (pop-append speaker.prototype_history old)
        (ap (λ o. record speaker { prototype = o }) (sym h))

  updated_with-version :
      (old p : SpeakerPrototype V F) (e : SpeakerEmbedding V F)
      → updated_with num old e ≡ ok p
      → p.version ≡ old.version + 1
  unfolding updated_with
  updated_with-version old p e h = ground arith

  kept : SessionSpeaker V F → SpeakerPrototype V F → SessionSpeaker V F
  kept speaker old = record speaker { prototype_history = speaker.prototype_history ++ old ∷ [] }

  updated : SessionSpeaker V F → SpeakerPrototype V F → SpeakerPrototype V F → SessionSpeaker V F
  unfolding kept
  updated speaker old p = record (kept speaker old) { prototype = some p }

  absorb-eq-ok :
      (s s' : Session V F) (speaker : SessionSpeaker V F) (e : SpeakerEmbedding V F)
      (old : SpeakerPrototype V F) (u : PrototypeUpdate) (r : Result (SpeakerPrototype V F))
      → updated_with num old e ≡ r
      → absorb num speaker e (some old) s ≡ (ok u, s')
      → (p : SpeakerPrototype V F) × (r ≡ ok p)
        × (u ≡ accepted_as reason_updated speaker p)
        × (s'.speakers speaker.session_speaker_id ≡ some (updated speaker old p))
  unfolding absorb kept updated
  absorb-eq-ok s s' speaker e old u (ok p) now h =
      let ran : absorb num speaker e (some old) s ≡ (
        ok (accepted_as reason_updated speaker p),
        write (write s (kept speaker old)) (updated speaker old p),
      ) =
        rw now refl in
      let both = sym h ∙ ran in
      let same : u ≡ accepted_as reason_updated speaker p = cc (ap (λ x. x.0) both) in
      (
        p,
        refl,
        same,
        ap (λ x. x.1.speakers speaker.session_speaker_id) both
            ∙ put_self (write s (kept speaker old)).speakers speaker.session_speaker_id
                (updated speaker old p),
      )
  absorb-eq-ok s s' speaker e old u (err x) now h =
      let ran : absorb num speaker e (some old) s ≡ (err x, write s (kept speaker old)) =
        rw now refl in
      absurd (cc (ap (λ x. x.0) (sym h ∙ ran)))

  absorb-after :
      (s s' : Session V F) (speaker : SessionSpeaker V F) (e : SpeakerEmbedding V F)
      (old : SpeakerPrototype V F) (u : PrototypeUpdate)
      → speaker.prototype ≡ some old
      → absorb num speaker e (some old) s ≡ (ok u, s')
      → (after : SessionSpeaker V F) × (s'.speakers speaker.session_speaker_id ≡ some after)
        × (u.version ≡ some (old.version + 1))
        × (rollback_prototype after ≡ speaker)
  unfolding updated kept
  absorb-after s s' speaker e old u at h =
      let (p, made, same, stored) =
        absorb-eq-ok s s' speaker e old u (updated_with num old e) refl h in
      (
        updated speaker old p,
        stored,
        ap (λ x. x.version) same ∙ ap some (updated_with-version old p e made),
        rollback_prototype-undoes speaker old p at,
      )

  -- The first prototype of a speaker: nothing joins the history, so a rollback does not undo it.
  absorb-first :
      (s s' : Session V F) (speaker : SessionSpeaker V F) (e : SpeakerEmbedding V F)
      (u : PrototypeUpdate)
      → speaker.prototype_history ≡ []
      → absorb num speaker e none s ≡ (ok u, s')
      → (after : SessionSpeaker V F) × (p : SpeakerPrototype V F) × (s'.speakers
            speaker.session_speaker_id
          ≡ some after)
        × (after.prototype ≡ some p)
        × (rollback_prototype after ≡ after)
  unfolding absorb rollback_prototype restored pop
  absorb-first s s' speaker e u empty h =
      elim (Result-cases (from_embedding num speaker.session_speaker_id e)) [
        | inl (error, failed) ↦ absurd (ground (arith, failed))
        | inr (p, made) ↦
            let ran : absorb num speaker e none s ≡ (
              ok (accepted_as reason_created speaker p),
              write s (record speaker { prototype = some p }),
            ) =
              rw made refl in
            (
              record speaker { prototype = some p },
              p,
              ap (λ x. x.1.speakers speaker.session_speaker_id) (sym h ∙ ran)
                  ∙ put_self s.speakers speaker.session_speaker_id
                      (record speaker { prototype = some p }),
              refl,
              rw empty refl,
            )
      ]

  -- An accepted update that gives a speaker without prototype and history its first prototype is not
  -- undone: `rollback_prototype` leaves the speaker that it stored as it is.
  update_prototype-first :
      (s s' : Session V F) (id : String) (e : SpeakerEmbedding V F) (margin : Option F)
      (passed : Bool) (u : PrototypeUpdate) (speaker : SessionSpeaker V F)
      → get s id ≡ ok speaker
      → speaker.prototype ≡ none
      → speaker.prototype_history ≡ []
      → update_prototype num id e margin passed s ≡ (ok u, s')
      → u.accepted ≡ true
      → (after : SessionSpeaker V F) × (p : SpeakerPrototype V F) × (s'.speakers
            speaker.session_speaker_id
          ≡ some after)
        × (after.prototype ≡ some p)
        × (rollback_prototype after ≡ after)
  update_prototype-first s s' id e margin passed u speaker found at empty h accepted =
      let (first, found', cases) = update_prototype-run num s s' id e margin passed u h in
      let same : first ≡ speaker = cc in
      elim cases [
        | inl (refused', kept_as) ↦ absurd cc
        | inr (accepted', passes, ran) ↦ absorb-first s s' speaker e u empty (
            subst (λ q. absorb num q e none s ≡ (ok u, s')) same
              (ap (λ o. absorb num first e o s) (sym at ∙ ap (λ q. q.prototype) (sym same)) ∙ ran))
      ]

  -- An accepted update of a speaker that has a prototype stores a prototype of the next version, and
  -- `rollback_prototype` on the speaker it stored gives back the speaker before the update.
  pub update_prototype-rollback :
      (s s' : Session V F) (id : String) (e : SpeakerEmbedding V F) (margin : Option F)
      (passed : Bool) (u : PrototypeUpdate) (speaker : SessionSpeaker V F)
      (old : SpeakerPrototype V F)
      → get s id ≡ ok speaker
      → speaker.prototype ≡ some old
      → update_prototype num id e margin passed s ≡ (ok u, s')
      → u.accepted ≡ true
      → (after : SessionSpeaker V F) × (s'.speakers speaker.session_speaker_id ≡ some after)
        × (u.version ≡ some (old.version + 1))
        × (rollback_prototype after ≡ speaker)
  update_prototype-rollback s s' id e margin passed u speaker old found at h accepted =
      let (first, found', cases) = update_prototype-run num s s' id e margin passed u h in
      let same : first ≡ speaker = cc in
      elim cases [
        | inl (refused', kept_as) ↦ absurd cc
        | inr (accepted', passes, ran) ↦ absorb-after s s' speaker e old u at (
            subst (λ q. absorb num q e (some old) s ≡ (ok u, s')) same
              (ap (λ o. absorb num first e o s) (sym at ∙ ap (λ q. q.prototype) (sym same)) ∙ ran))
      ]
