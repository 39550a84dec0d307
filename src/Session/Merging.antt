-- ===== src/Session/Merging.antt =====
-- src/sastt/application/session_state.py: cannot-link constraints and merges.
pub mod Forest
pub mod Roots
pub mod Gets
pub mod Outcome
pub mod Keeps
pub mod Leads
pub mod Constraints
use speaker_attributed_stt.Prelude.{
  ℕ, String, Bool, true, false, not, Option, none, some, List, [], ◌∷◌, ◌++◌, str_eq, if◌then◌else◌,
  any, filter,
}
use speaker_attributed_stt.Errors.{Result, ok, err, invalid_state_transition_error, raise_if}
use speaker_attributed_stt.Errors
use speaker_attributed_stt.Exec.{Exec, pure, lift, reads, tries, modify, ◌>>=◌, ◌>>◌}
use speaker_attributed_stt.Identity.{
  Machine, IdentityState, session_anonymous, merged, is_state, transition,
}
use speaker_attributed_stt.Embedding.{SpeakerPrototype}
use speaker_attributed_stt.Session.{SessionSpeaker, LabelChange, Session, get, write}

-- `id in ids`, and the set operations of the code, on a list without order.
abbrev pub contains : List String → String → Bool
contains ids id = any (str_eq id) ids

unfoldable pub with_id : List String → String → List String
with_id ids id = if contains ids id then ids else ids ++ id ∷ []

-- `a |= b - {without}`
unfoldable pub union_without : List String → List String → String → List String
unfolding with_id
union_without a [] without = a
union_without a (id ∷ ids) without =
    union_without (if str_eq id without then a else with_id a id) ids without

-- `machine.transition(to, reason)`, where only the machine is used.
unfoldable pub stepped : Machine → IdentityState → String → Result Machine
stepped m to reason = Errors.◌>>=◌ (transition m to reason) (λ t. ok t.1)

-- The machine of the source of a merge: provisional to anonymous, and anonymous to merged.
anonymised : Machine → String → Result Machine
unfolding stepped
anonymised m reason =
    if is_state m.state IdentityState.provisional then stepped m session_anonymous reason else ok m

closed : Machine → String → Result Machine
unfolding stepped
closed m reason = if is_state m.state session_anonymous then stepped m merged reason else ok m

unfoldable pub merged_machine : Machine → String → Result Machine
unfolding anonymised closed
merged_machine m reason = Errors.◌>>=◌ (anonymised m reason) (λ n. closed n reason)

module _ {V F : Type 0} where
  link_if_different : SessionSpeaker V F → SessionSpeaker V F → Session V F → Session V F
  unfolding with_id
  link_if_different first second s =
      if str_eq first.session_speaker_id second.session_speaker_id
      then s
      else write
          (write s
            (record first { cannot_link = with_id first.cannot_link second.session_speaker_id }))
          (record second { cannot_link = with_id second.cannot_link first.session_speaker_id })

  unfoldable pub add_cannot_link : String → String → Exec (Session V F) (Unit {0})
  unfolding link_if_different
  add_cannot_link first_id second_id = do
    first ← tries (λ s. get s first_id)
    second ← tries (λ s. get s second_id)
    modify (link_if_different first second)

  -- The answer for two canonical speakers.
  unfoldable pub may_merge : SessionSpeaker V F → SessionSpeaker V F → Bool
  may_merge source target =
      if str_eq source.session_speaker_id target.session_speaker_id
      then false
      else not (contains source.cannot_link target.session_speaker_id)

  unfoldable pub can_merge : String → String → Exec (Session V F) Bool
  unfolding may_merge
  can_merge source_id target_id = do
    source ← tries (λ s. get s source_id)
    target ← tries (λ s. get s target_id)
    pure (may_merge source target)

  abbrev inherited : SessionSpeaker V F → SessionSpeaker V F → Option (SpeakerPrototype V F)
  inherited target source = elim target.prototype [ none ↦ source.prototype | some p ↦ some p ]

  -- The two speakers after a merge.
  abbrev pub merged_source : SessionSpeaker V F → SessionSpeaker V F → Machine → SessionSpeaker V F
  merged_source source target machine = record source {
    machine = machine;
    merged_into = some target.session_speaker_id;
    display_label = target.display_label;
  }

  abbrev pub merged_target : SessionSpeaker V F → SessionSpeaker V F → SessionSpeaker V F
  merged_target source target = record target {
    prototype = inherited target source;
    cannot_link = union_without target.cannot_link source.cannot_link target.session_speaker_id;
  }

  abbrev pub merge_change : SessionSpeaker V F → SessionSpeaker V F → String → LabelChange
  merge_change source target reason = record {
    session_speaker_id = source.session_speaker_id;
    previous_label = source.display_label;
    new_label = target.display_label;
    reason = reason;
  }

  abbrev pub after_merge :
      Session V F → SessionSpeaker V F → SessionSpeaker V F → Machine → String → Session V F
  after_merge s source target machine reason =
      record (write (write s (merged_source source target machine)) (merged_target source target)) {
        pending_label_changes = s.pending_label_changes ++ merge_change source target reason ∷ [];
      }

  unfoldable pub merge : String → String → String → Exec (Session V F) LabelChange
  unfolding can_merge merged_machine union_without
  merge source_id target_id reason = do
    source ← tries (λ s. get s source_id)
    target ← tries (λ s. get s target_id)
    allowed ← can_merge source.session_speaker_id target.session_speaker_id
    lift (raise_if (not allowed) invalid_state_transition_error)
    machine ← lift (merged_machine source.machine reason)
    modify (λ s. after_merge s source target machine reason)
    pure (merge_change source target reason)
