-- ===== src/Session/Resolution.antt =====
-- src/sastt/application/session_state.py: how identities are resolved, and the label changes that
-- the session hands out.
pub mod VoiceId
use speaker_attributed_stt.Embedding.{SpeakerPrototype}
use speaker_attributed_stt.Session.{
  ok, write, get, speaker_state, LabelChange, or_text, Session, active, SessionSpeaker,
}
use speaker_attributed_stt.Errors.{Result, invalid_state_transition_error, raise_if}
use speaker_attributed_stt.Prelude.{
  if◌then◌else◌, ◌+◌, str_eq, String, ℕ, Bool, true, false, not, ◌||◌, Option, none, some, List, [],
  ◌∷◌, ◌++◌, ltb,
}
use speaker_attributed_stt.Exec.{Exec, pure, lift, reads, tries, modify, ◌>>=◌, ◌>>◌}
use speaker_attributed_stt.Identity.{session_anonymous, Machine, IdentityState, is_state}
use speaker_attributed_stt.Session.Creating.{speaker_label}
use speaker_attributed_stt.Session.Merging.{stepped}

-- src/sastt/domain/speakers.py: `VoiceIdDecision`, with the fields that are read and the statuses as
-- a type.
pub data VoiceIdStatus : Type 0 where
  enrolled ambiguous unknown uncalibrated : VoiceIdStatus

pub record VoiceIdDecision : Type 0 where
  pub status : VoiceIdStatus
  pub registry_speaker_id : Option String
  pub speaker_name : Option String

-- `a or ""`, the text whose truth Python tests.
unfoldable pub is_given : Option String → Bool
is_given none = false
is_given (some a) = not (str_eq a "")

-- The machine of a speaker that Voice ID accepts. In the other states no transition is made.
unfoldable pub accepted_machine : Machine → Result Machine
unfolding stepped is_state
accepted_machine m =
    if is_state m.state IdentityState.provisional || is_state m.state session_anonymous
    then stepped m IdentityState.enrolled "voice_id_accept"
    else if is_state m.state IdentityState.ambiguous
    then stepped m IdentityState.enrolled "voice_id_reaccept"
    else ok m

module _ {V F : Type 0} where
  -- The change of a label, on record and on the speaker.
  abbrev pub relabelled : SessionSpeaker V F → String → String → LabelChange
  relabelled speaker label reason = record {
    session_speaker_id = speaker.session_speaker_id;
    previous_label = speaker.display_label;
    new_label = label;
    reason = reason;
  }

  abbrev pub noted : Session V F → LabelChange → Session V F
  noted s change = record s { pending_label_changes = s.pending_label_changes ++ change ∷ [] }

  -- `label`, or the next label of the session.
  unfoldable pub label_or_next : Option String → Exec (Session V F) String
  label_or_next (some label) = pure label
  label_or_next none = do
    modify (λ s. record s { label_counter = s.label_counter + 1 })
    reads (λ s. speaker_label s.label_counter)

  unfoldable pub promoted :
      SessionSpeaker V F → String → Option String → Exec (Session V F) LabelChange
  unfolding stepped label_or_next
  promoted speaker reason label = do
    machine ← lift (stepped speaker.machine session_anonymous reason)
    modify (λ s. write s (record speaker { machine = machine }))
    given ← label_or_next label
    let change = relabelled speaker given reason
    modify
        (λ s. noted (write s (record speaker { machine = machine; display_label = given })) change)
    pure change

  promoted_if :
      Bool → SessionSpeaker V F → String → Option String → Exec (Session V F) (Option LabelChange)
  unfolding promoted
  promoted_if false speaker reason label = pure none
  promoted_if true speaker reason label = do
    change ← promoted speaker reason label
    pure (some change)

  unfoldable pub promote_provisional :
      String → String → Option String → Exec (Session V F) (Option LabelChange)
  unfolding promoted_if is_state
  promote_provisional id reason label = do
    speaker ← tries (λ s. get s id)
    promoted_if (is_state (speaker_state speaker) IdentityState.provisional) speaker reason label

  abbrev pub named : SessionSpeaker V F → Machine → VoiceIdDecision → SessionSpeaker V F
  named speaker machine decision = record speaker {
    machine = machine;
    registry_speaker_id = decision.registry_speaker_id;
    speaker_name = decision.speaker_name;
    display_label = or_text decision.speaker_name "";
  }

  accept_voice : SessionSpeaker V F → VoiceIdDecision → Exec (Session V F) (Option LabelChange)
  unfolding accepted_machine is_given
  accept_voice speaker decision = do
    lift (
        raise_if
          (not (is_given decision.registry_speaker_id) || not (is_given decision.speaker_name))
          invalid_state_transition_error)
    machine ← lift (accepted_machine speaker.machine)
    let change = relabelled speaker (or_text decision.speaker_name "") "voice_id_accept"
    modify (λ s. noted (write s (named speaker machine decision)) change)
    pure (some change)

  doubt_voice : Bool → SessionSpeaker V F → Exec (Session V F) (Option LabelChange)
  unfolding stepped
  doubt_voice false speaker = pure none
  doubt_voice true speaker = do
    machine ← lift (stepped speaker.machine IdentityState.ambiguous "voice_id_contradiction")
    modify (λ s. write s (record speaker { machine = machine }))
    pure none

  decide_voice :
      VoiceIdStatus → SessionSpeaker V F → VoiceIdDecision → Exec (Session V F) (Option LabelChange)
  unfolding accept_voice doubt_voice is_state
  decide_voice VoiceIdStatus.enrolled speaker decision = accept_voice speaker decision
  decide_voice VoiceIdStatus.ambiguous speaker decision =
      doubt_voice (is_state (speaker_state speaker) IdentityState.enrolled) speaker
  decide_voice VoiceIdStatus.unknown speaker decision = pure none
  decide_voice uncalibrated speaker decision = pure none

  unfoldable pub apply_voice_id : String → VoiceIdDecision → Exec (Session V F) (Option LabelChange)
  unfolding decide_voice
  apply_voice_id id decision = do
    speaker ← tries (λ s. get s id)
    decide_voice decision.status speaker decision

  -- One round of `finalize_unresolved`, for a provisional speaker with or without a prototype.
  settle :
      SessionSpeaker V F → Option (SpeakerPrototype V F) → Bool → Exec (Session V F) (List String)
  unfolding stepped promote_provisional
  settle speaker none calibrated = do
    machine ← lift (stepped speaker.machine IdentityState.unknown "insufficient_evidence")
    modify (λ s. write s (record speaker { machine = machine }))
    pure (speaker.session_speaker_id ∷ [])
  settle speaker (some p) false = pure []
  settle speaker (some p) true = do
    change ← promote_provisional speaker.session_speaker_id "separated_evidence_final" none
    pure []

  settle_if : Bool → SessionSpeaker V F → Exec (Session V F) (List String)
  unfolding settle
  settle_if false speaker = pure []
  settle_if true speaker = do
    calibrated ← reads (λ s. s.config.is_calibrated)
    settle speaker speaker.prototype calibrated

  unfoldable pub finalize_each : List (SessionSpeaker V F) → Exec (Session V F) (List String)
  unfolding settle_if is_state
  finalize_each [] = pure []
  finalize_each (speaker ∷ rest) = do
    unresolved ← settle_if (is_state (speaker_state speaker) IdentityState.provisional) speaker
    others ← finalize_each rest
    pure (unresolved ++ others)

  -- A round changes no speaker but its own, so the list of speakers taken before the loop holds
  -- each as it is when its round comes.
  unfoldable pub finalize_unresolved : Exec (Session V F) (List String)
  unfolding finalize_each active
  finalize_unresolved = do speakers ← reads active; finalize_each speakers

  unfoldable pub drain_label_changes : Exec (Session V F) (List LabelChange)
  drain_label_changes = do
    changes ← reads (λ s. s.pending_label_changes)
    modify (λ s. record s { pending_label_changes = [] })
    pure changes
