-- ===== src/Session/Merging/Leads.antt =====
-- What a caller sees of a merge: which ids it leads to the target, and which it leaves.
use speaker_attributed_stt.Session.Merging.Roots.{Moves}
use text.Mathlib.TextPositions.{eq_refl}
use speaker_attributed_stt.Session.Merging.Gets.{get_free, get_own, get_stored}
use speaker_attributed_stt.Session.Merging.Keeps.{after-IsForest, after-get, after-leads}
use speaker_attributed_stt.Session.Merging.Outcome.{merge-eq, finished-eq-ok, allowed-distinct}
use speaker_attributed_stt.Session.Merging.{
  merged_machine, may_merge, after_merge, merged_target, merge,
}
use speaker_attributed_stt.Session.Merging.Forest.{IsForest}
use speaker_attributed_stt.Session.{Machine, ok, get, SessionSpeaker, LabelChange, Session}
use speaker_attributed_stt.Prelude.{◌⊎◌, inr, inl, ap, ◌∙◌, false, sym, subst, str_eq, String, ◌≡◌}

module _ {V F : Type 0} where
  merge-facts :
      (s s' : Session V F) (a b reason : String) (change : LabelChange)
      (source target : SessionSpeaker V F)
      → IsForest s
      → get s a ≡ ok source
      → get s b ≡ ok target
      → merge a b reason s ≡ (ok change, s')
      → (machine : Machine) × (str_eq target.session_speaker_id source.session_speaker_id ≡ false)
        × (s' ≡ after_merge s source target machine reason)
  merge-facts s s' a b reason change source target f ga gb h =
      let gs = get_own s a source f ga in
      let gt = get_own s b target f gb in
      let (machine, allowed, e) =
        finished-eq-ok s s' reason change source target (may_merge source target)
          (merged_machine source.machine reason)
          (sym (merge-eq s a b reason source target ga gb gs gt) ∙ h) in
      (machine, allowed-distinct source target allowed, e)

  -- A merge that succeeds on a session whose merge links form a forest leaves them a forest: every
  -- speaker is stored under its own id, and no chain of merges is a cycle.
  pub merge-IsForest :
      (s s' : Session V F) (a b reason : String) (change : LabelChange)
      (source target : SessionSpeaker V F)
      → IsForest s
      → get s a ≡ ok source
      → get s b ≡ ok target
      → merge a b reason s ≡ (ok change, s')
      → IsForest s'
  merge-IsForest s s' a b reason change source target f ga gb h =
      let (machine, distinct, e) = merge-facts s s' a b reason change source target f ga gb h in
      subst IsForest (sym e) (
        after-IsForest s source target machine reason f (get_stored s a source f ga)
          (get_free s a source f ga) (get_stored s b target f gb) (get_free s b target f gb)
          distinct)

  -- After a merge that succeeds on a forest, every id that `get` resolved to the source or to the
  -- target resolves to the target as the merge left it.
  pub merge_leads :
      (s s' : Session V F) (a b reason : String) (change : LabelChange)
      (source target : SessionSpeaker V F) (id : String)
      → IsForest s
      → get s a ≡ ok source
      → get s b ≡ ok target
      → merge a b reason s ≡ (ok change, s')
      → (get s id ≡ ok source) ⊎ (get s id ≡ ok target)
      → get s' id ≡ ok (merged_target source target)
  merge_leads s s' a b reason change source target id f ga gb h g =
      let (machine, distinct, e) = merge-facts s s' a b reason change source target f ga gb h in
      subst (λ x. get x id ≡ ok (merged_target source target)) (sym e)
        (after-leads s source target machine reason f (get_stored s a source f ga)
          (get_free s a source f ga) (get_stored s b target f gb) (get_free s b target f gb)
          distinct id g)

  -- A merge that succeeds on a forest leaves the answer of `get` as it was for every id that resolved
  -- to a speaker other than the source and the target.
  pub merge_keeps :
      (s s' : Session V F) (a b reason : String) (change : LabelChange)
      (source target : SessionSpeaker V F) (id : String) (r : SessionSpeaker V F)
      → IsForest s
      → get s a ≡ ok source
      → get s b ≡ ok target
      → merge a b reason s ≡ (ok change, s')
      → get s id ≡ ok r
      → str_eq r.session_speaker_id source.session_speaker_id ≡ false
      → str_eq r.session_speaker_id target.session_speaker_id ≡ false
      → get s' id ≡ ok r
  unfolding Moves
  merge_keeps s s' a b reason change source target id r f ga gb h g other_source other_target =
      let (machine, distinct, e) = merge-facts s s' a b reason change source target f ga gb h in
      let (r', there, moves) =
        after-get s source target machine reason f (get_stored s a source f ga)
          (get_free s a source f ga) (get_stored s b target f gb) (get_free s b target f gb)
          distinct id r g in
      subst (λ x. get x id ≡ ok r) (sym e)
        (there
          ∙ ap ok (elim moves [
            | inl (same, to) ↦ absurd (cc (eq_refl source.session_speaker_id))
            | inr (inl (same, to)) ↦ absurd (cc (eq_refl target.session_speaker_id))
            | inr (inr same) ↦ same
          ]))
