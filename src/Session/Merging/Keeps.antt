-- ===== src/Session/Merging/Keeps.antt =====
-- A merge of two speakers keeps the forest, and leads every id of the source to the target.
use speaker_attributed_stt.Session.Merging.Gets.{get-chain, get_stored, get_chain}
use speaker_attributed_stt.Prelude.{
  ◌≢◌, ◌∙◌, ◌<◌, ◌⊎◌, any, ℕ, str_eq, suc, ◌≡◌, refl, sym, ap, subst, String, true, false, inl, inr,
  none, some, arith,
}
use speaker_attributed_stt.Errors.{ok}
use speaker_attributed_stt.Identity.{Machine}
use speaker_attributed_stt.Session.{SessionSpeaker, Session, get}
use speaker_attributed_stt.Session.Merging.{merged_target, merged_source, after_merge}
use speaker_attributed_stt.Session.Merging.Roots.{
  joined-cases, joined-Resolves, Moves, count-lt, joined-source, joined-target, source-Resolves,
  target-Resolves,
}
use speaker_attributed_stt.Session.Merging.Forest.{
  Resolves-weaken, Resolves, merged_count, IsForest,
}

module _ {V F : Type 0} (s : Session V F) (source target : SessionSpeaker V F) (machine : Machine)
    (reason : String) (f : IsForest s)
    (at_source : s.speakers source.session_speaker_id ≡ some source)
    (free_source : source.merged_into ≡ none)
    (at_target : s.speakers target.session_speaker_id ≡ some target)
    (free_target : target.merged_into ≡ none)
    (distinct : str_eq target.session_speaker_id source.session_speaker_id ≡ false) where
  abbrev after : Session V F
  after = after_merge s source target machine reason

  after-cases :
      (id : String)
      → (source.session_speaker_id ≡ id)
        ⊎ ((target.session_speaker_id ≡ id) ⊎ (after.speakers id ≡ s.speakers id))
  after-cases =
      joined-cases s.speakers source target (merged_source source target machine)
        (merged_target source target) at_source free_source at_target free_target distinct refl
        free_target

  after-source :
      after.speakers source.session_speaker_id ≡ some (merged_source source target machine)
  after-source =
      joined-source s.speakers source target (merged_source source target machine)
        (merged_target source target) at_source free_source at_target free_target distinct refl
        free_target

  after-target : after.speakers target.session_speaker_id ≡ some (merged_target source target)
  after-target =
      joined-target s.speakers source target (merged_source source target machine)
        (merged_target source target) at_source free_source at_target free_target distinct refl
        free_target

  pub after-source-Resolves :
      Resolves after.speakers (merged_target source target) 1 source.session_speaker_id
  after-source-Resolves =
      source-Resolves s.speakers source target (merged_source source target machine)
        (merged_target source target) at_source free_source at_target free_target distinct refl
        free_target 0

  pub after-target-Resolves :
      Resolves after.speakers (merged_target source target) 0 target.session_speaker_id
  after-target-Resolves =
      target-Resolves s.speakers source target (merged_source source target machine)
        (merged_target source target) at_source free_source at_target free_target distinct refl
        free_target 0

  pub after-Resolves :
      {r : SessionSpeaker V F} {n : ℕ} {id : String}
      → Resolves s.speakers r n id
      → (r' : SessionSpeaker V F) × Resolves after.speakers r' (suc n) id
        × Moves source target (merged_target source target) r r'
  after-Resolves =
      joined-Resolves s.speakers source target (merged_source source target machine)
        (merged_target source target) at_source free_source at_target free_target distinct refl
        free_target

  count_grows : merged_count s.speakers s.order < merged_count after.speakers s.order
  count_grows =
      count-lt s.speakers source target (merged_source source target machine)
        (merged_target source target) at_source free_source at_target free_target distinct refl
        free_target s.order (f.listed source.session_speaker_id source at_source)

  after-own :
      (id : String) (p : SessionSpeaker V F)
      → after.speakers id ≡ some p
      → p.session_speaker_id ≡ id
  after-own id p e = elim (after-cases id) [
    | inl same ↦
        let at : p ≡ merged_source source target machine = cc (after-source, same, e) in
        ap (λ q. q.session_speaker_id) at ∙ same
    | inr (inl same) ↦
        let at : p ≡ merged_target source target = cc (after-target, same, e) in
        ap (λ q. q.session_speaker_id) at ∙ same
    | inr (inr kept) ↦ f.own id p (sym kept ∙ e)
  ]

  after-listed :
      (id : String) (p : SessionSpeaker V F)
      → after.speakers id ≡ some p
      → any (str_eq id) s.order ≡ true
  after-listed id p e = elim (after-cases id) [
    | inl same ↦
        subst (λ i. any (str_eq i) s.order ≡ true) same
          (f.listed source.session_speaker_id source at_source)
    | inr (inl same) ↦
        subst (λ i. any (str_eq i) s.order ≡ true) same
          (f.listed target.session_speaker_id target at_target)
    | inr (inr kept) ↦ f.listed id p (sym kept ∙ e)
  ]

  after-ends :
      (id : String) (p : SessionSpeaker V F)
      → after.speakers id ≡ some p
      → (r : SessionSpeaker V F) × Resolves after.speakers r
          (merged_count after.speakers s.order)
          id
  after-ends id p e = elim (after-cases id) [
    | inl same ↦ (
      merged_target source target,
      subst
          (Resolves after.speakers (merged_target source target)
            (merged_count after.speakers s.order))
          same
          (Resolves-weaken (merged_count after.speakers s.order) after-source-Resolves
            (omega (arith, count_grows))),
    )
    | inr (inl same) ↦ (
      merged_target source target,
      subst
          (Resolves after.speakers (merged_target source target)
            (merged_count after.speakers s.order))
          same
          (Resolves-weaken (merged_count after.speakers s.order) after-target-Resolves
            (omega (arith, count_grows))),
    )
    | inr (inr kept) ↦
        let (r, chain) = f.ends id p (sym kept ∙ e) in
        let (r', longer, moves) = after-Resolves chain in
        (
          r',
          Resolves-weaken (merged_count after.speakers s.order) longer (omega (arith, count_grows)),
        )
  ]

  pub after-IsForest : IsForest after
  after-IsForest = record { own = after-own; listed = after-listed; ends = after-ends }

  pub after-get :
      (id : String) (r : SessionSpeaker V F)
      → get s id ≡ ok r
      → (r' : SessionSpeaker V F) × (get after id ≡ ok r')
        × Moves source target (merged_target source target) r r'
  after-get id r g =
      let (r', chain, moves) = after-Resolves (get_chain s id r f g) in
      (
        r',
        get-chain after id r' (
            Resolves-weaken (merged_count after.speakers s.order) chain
              (omega (arith, count_grows))),
        moves,
      )

  -- No id resolves to the source any more.
  pub after-source-gone : (id : String) → get after id ≢ ok source
  after-source-gone id g =
      let at : after.speakers source.session_speaker_id ≡ some source =
        get_stored after id source after-IsForest g in
      let same : source ≡ merged_source source target machine = cc after-source in
      let linked : source.merged_into ≡ some target.session_speaker_id =
        ap (λ q. q.merged_into) same in
      cc

  pub after-target-is :
      (id : String) → get after id ≡ ok target → target ≡ merged_target source target
  after-target-is id g =
      let at : after.speakers target.session_speaker_id ≡ some target =
        get_stored after id target after-IsForest g in
      cc after-target

  -- An id of the source or of the target resolves to the target.
  pub after-leads :
      (id : String)
      → (get s id ≡ ok source) ⊎ (get s id ≡ ok target)
      → get after id ≡ ok (merged_target source target)
  unfolding Moves
  after-leads id (inl g) =
      let (r', there, moves) = after-get id source g in
      there
      ∙ ap ok (elim moves [
        | inl (same, to) ↦ to
        | inr (inl (same, to)) ↦ to
        | inr (inr same) ↦ absurd (after-source-gone id (there ∙ ap ok same))
      ])
  after-leads id (inr g) =
      let (r', there, moves) = after-get id target g in
      there
      ∙ ap ok (elim moves [
        | inl (same, to) ↦ to
        | inr (inl (same, to)) ↦ to
        | inr (inr same) ↦ same ∙ after-target-is id (there ∙ ap ok same)
      ])
