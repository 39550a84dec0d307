-- ===== src/Session/Merging/Outcome.antt =====
-- The outcome of `can_merge` and of `merge` when both speakers are found.
use speaker_attributed_stt.Prelude.{
  eq_iff, Bool-cases, str_eq, ◌≡◌, refl, sym, ap, String, Bool, true, false, inl, inr, arith, not,
}
use speaker_attributed_stt.Errors.{raise_if, invalid_state_transition_error, Result, ok, err}
use speaker_attributed_stt.Exec.{pure, modify, lift, ◌>>=◌}
use speaker_attributed_stt.Identity.{Machine}
use speaker_attributed_stt.Session.{LabelChange, SessionSpeaker, Session, get}
use speaker_attributed_stt.Session.Merging.{
  after_merge, merge, merged_machine, may_merge, can_merge, merge_change,
}

module _ {V F : Type 0} where
  pub can_merge-eq :
      (s : Session V F) (source target : SessionSpeaker V F)
      → get s source.session_speaker_id ≡ ok source
      → get s target.session_speaker_id ≡ ok target
      → can_merge source.session_speaker_id target.session_speaker_id s
        ≡ (ok (may_merge source target), s)
  unfolding can_merge
  can_merge-eq s source target gs gt = rw (gs, gt) refl

  unfoldable pub finished :
      Session V F
      → SessionSpeaker V F
      → SessionSpeaker V F
      → String
      → Bool
      → Result Machine
      → Result LabelChange × Session V F
  finished s source target reason false machine = (err invalid_state_transition_error, s)
  finished s source target reason true (err e) = (err e, s)
  finished s source target reason true (ok machine) =
      (ok (merge_change source target reason), after_merge s source target machine reason)

  rest_of_merge :
      (s : Session V F) (source target : SessionSpeaker V F) (reason : String) (allowed : Bool)
      (machine : Result Machine)
      → ((lift (raise_if (not allowed) invalid_state_transition_error) >>= λ _.
            lift machine >>= λ m. modify (λ s. after_merge s source target m reason) >>= λ _.
            pure (merge_change source target reason))
          s)
        ≡ finished s source target reason allowed machine
  unfolding finished
  rest_of_merge s source target reason false machine = refl
  rest_of_merge s source target reason true (err e) = refl
  rest_of_merge s source target reason true (ok machine) = refl

  pub merge-eq :
      (s : Session V F) (a b reason : String) (source target : SessionSpeaker V F)
      → get s a ≡ ok source
      → get s b ≡ ok target
      → get s source.session_speaker_id ≡ ok source
      → get s target.session_speaker_id ≡ ok target
      → merge a b reason s
        ≡ finished s source target reason
            (may_merge source target)
            (merged_machine source.machine reason)
  unfolding merge
  merge-eq s a b reason source target ga gb gs gt =
      rw (ga, gb, can_merge-eq s source target gs gt)
        (rest_of_merge s source target reason (may_merge source target)
          (merged_machine source.machine reason))

  pub finished-eq-ok :
      (s s' : Session V F) (reason : String) (change : LabelChange)
      (source target : SessionSpeaker V F) (allowed : Bool) (machine : Result Machine)
      → finished s source target reason allowed machine ≡ (ok change, s')
      → (m : Machine) × (allowed ≡ true) × (s' ≡ after_merge s source target m reason)
  unfolding finished
  finished-eq-ok s s' reason change source target false machine h = absurd cc
  finished-eq-ok s s' reason change source target true (err e) h = absurd cc
  finished-eq-ok s s' reason change source target true (ok m) h = (m, refl, sym (ap (λ x. x.1) h))

  pub allowed-distinct :
      (source target : SessionSpeaker V F)
      → may_merge source target ≡ true
      → str_eq target.session_speaker_id source.session_speaker_id ≡ false
  unfolding may_merge
  allowed-distinct source target h =
      elim (Bool-cases (str_eq target.session_speaker_id source.session_speaker_id)) [
        | inl same ↦
            let e : str_eq source.session_speaker_id target.session_speaker_id ≡ true =
              (eq_iff source.session_speaker_id target.session_speaker_id).1
                (sym ((eq_iff target.session_speaker_id source.session_speaker_id).0 same)) in
            ground arith
        | inr other ↦ other
      ]
