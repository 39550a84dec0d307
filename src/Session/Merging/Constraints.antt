-- ===== src/Session/Merging/Constraints.antt =====
-- The cannot-link constraints after `add_cannot_link` and after a merge.
use speaker_attributed_stt.Session.Merging.Gets.{get_own}
use speaker_attributed_stt.Session.Merging.Leads.{merge_keeps, merge_leads}
use speaker_attributed_stt.Session.Merging.Forest.{IsForest}
use speaker_attributed_stt.Session.Merging.{
  merged_target, may_merge, can_merge, merge, ok, get, SessionSpeaker, LabelChange, Session,
  contains, with_id, union_without,
}
use text.Mathlib.TextPositions.{eq_refl}
use speaker_attributed_stt.Session.Merging.Outcome.{can_merge-eq}
use speaker_attributed_stt.Prelude.{
  ◌∙◌, ap, ◌||◌, if◌then◌else◌, ◌++◌, sym, subst, eq_iff, inr, inl, Bool-cases, [], false, str_eq,
  ◌∷◌, arith, true, String, List, ◌≡◌,
}

contains-append :
    (a b : List String) (x : String) → contains (a ++ b) x ≡ (contains a x || contains b x)
contains-append [] b x = λ i. contains b x
contains-append (y ∷ a) b x = ground (arith, contains-append a b x)

with_id-keeps :
    (a : List String) (id x : String) → contains a x ≡ true → contains (with_id a id) x ≡ true
unfolding with_id
with_id-keeps a id x h = ground (arith, contains-append a (id ∷ []) x)

with_id-own : (a : List String) (id : String) → contains (with_id a id) id ≡ true
unfolding with_id
with_id-own a id = ground (arith, contains-append a (id ∷ []) id, eq_refl id)

union_without-keeps :
    (a b : List String) (without x : String)
    → contains a x ≡ true
    → contains (union_without a b without) x ≡ true
unfolding union_without
union_without-keeps a [] without x h = h
union_without-keeps a (id ∷ b) without x h = elim (Bool-cases (str_eq id without)) [
  | inl e ↦ rw e (union_without-keeps a b without x h)
  | inr e ↦ rw e (union_without-keeps (with_id a id) b without x (with_id-keeps a id x h))
]

union_without-adds :
    (a b : List String) (without x : String)
    → contains b x ≡ true
    → str_eq x without ≡ false
    → contains (union_without a b without) x ≡ true
unfolding union_without
union_without-adds a [] without x h other = absurd cc
union_without-adds a (id ∷ b) without x h other = elim (Bool-cases (str_eq x id)) [
  | inl same ↦
      let e : x ≡ id = (eq_iff x id).0 same in
      let kept : str_eq id without ≡ false = subst (λ i. str_eq i without ≡ false) e other in
      let own : contains (with_id a id) x ≡ true =
        subst (λ i. contains (with_id a id) i ≡ true) (sym e) (with_id-own a id) in
      rw kept (union_without-keeps (with_id a id) b without x own)
  | inr differs ↦
      union_without-adds (if str_eq id without then a else with_id a id) b without x
        (sym (ap (λ b'. b' || contains b x) differs) ∙ h) other
]

module _ {V F : Type 0} where
  barred-may_merge :
      (p q : SessionSpeaker V F)
      → contains p.cannot_link q.session_speaker_id ≡ true
      → may_merge p q ≡ false
  unfolding may_merge
  barred-may_merge p q h = ground arith

  free-may_merge :
      (p q : SessionSpeaker V F)
      → str_eq p.session_speaker_id q.session_speaker_id ≡ false
      → contains p.cannot_link q.session_speaker_id ≡ false
      → may_merge p q ≡ true
  unfolding may_merge
  free-may_merge p q d h = ground arith

  -- When a merge succeeds on a forest, and the source held a constraint against a third speaker that
  -- holds none against the target, then the target may no longer be merged into
  -- the third, while the third may still be merged into the target.
  pub merge_constraint_one_way :
      (s s' : Session V F) (a b reason : String) (change : LabelChange)
      (source target third : SessionSpeaker V F)
      → IsForest s
      → get s a ≡ ok source
      → get s b ≡ ok target
      → get s third.session_speaker_id ≡ ok third
      → merge a b reason s ≡ (ok change, s')
      → str_eq third.session_speaker_id source.session_speaker_id ≡ false
      → str_eq third.session_speaker_id target.session_speaker_id ≡ false
      → contains source.cannot_link third.session_speaker_id ≡ true
      → contains third.cannot_link target.session_speaker_id ≡ false
      → (can_merge target.session_speaker_id third.session_speaker_id s' ≡ (ok false, s'))
        × (can_merge third.session_speaker_id target.session_speaker_id s' ≡ (ok true, s'))
  merge_constraint_one_way s s' a b reason change source target third f ga gb gt h ns nt held free =
      let to =
        merge_leads s s' a b reason change source target target.session_speaker_id f ga gb h
          (inr (get_own s b target f gb)) in
      let kept =
        merge_keeps s s' a b reason change source target third.session_speaker_id third f ga gb h gt
          ns nt in
      let barred =
        union_without-adds target.cannot_link source.cannot_link target.session_speaker_id
          third.session_speaker_id held nt in
      (
        can_merge-eq s' (merged_target source target) third to kept
            ∙ ap (λ x. (ok x, s')) (barred-may_merge (merged_target source target) third barred),
        can_merge-eq s' third (merged_target source target) kept to
            ∙ ap (λ x. (ok x, s')) (free-may_merge third (merged_target source target) nt free),
      )
