-- ===== src/Session/Creating.antt =====
-- src/sastt/application/session_state.py: creating speakers. `ulid` is the answer of `new_ulid`.
pub mod Roster
pub mod Sink
use Prim.Native.String.{◌++◌ as join}
use speaker_attributed_stt.Prelude.{
  ℕ, suc, ◌+◌, String, Bool, true, false, not, Option, none, some, List, [], ◌∷◌, ◌++◌, leb,
}
use speaker_attributed_stt.Prelude.Dict.{put, has}
use speaker_attributed_stt.Prelude.Text.{decimal}
use speaker_attributed_stt.Errors.{Result, ok, err, invalid_state_transition_error, raise_if}
use speaker_attributed_stt.Exec.{Exec, pure, lift, reads, tries, modify, ◌>>=◌, ◌>>◌}
use speaker_attributed_stt.Identity.{
  Machine, IdentityState, session_anonymous, make_machine, transition,
}
use speaker_attributed_stt.Session.{
  SessionSpeaker, Session, or_text, speaker_at, active_speaker_count, can_admit_speaker, by_cluster,
}

-- `SPEAKER_LABEL.format(index=n)` and `TEMPORARY_LABEL.format(index=n)`.
abbrev pub speaker_label : ℕ → String
speaker_label n = join "Speaker " (decimal n)

abbrev pub temporary_label : ℕ → String
temporary_label n = join "Temporary Speaker " (decimal n)

abbrev pub unattributed_label : String
unattributed_label = "Unknown"

-- `_new_id`
abbrev pub new_speaker_id : String → String
new_speaker_id ulid = join "sess_spk_" ulid

module _ {V F : Type 0} where
  abbrev pub new_speaker : String → Machine → String → Option String → SessionSpeaker V F
  new_speaker id machine label cluster_id = record {
    session_speaker_id = id;
    machine = machine;
    display_label = label;
    cluster_id = cluster_id;
    registry_speaker_id = none;
    speaker_name = none;
    prototype = none;
    prototype_history = [];
    merged_into = none;
    cannot_link = [];
  }

  abbrev pub registered : Session V F → SessionSpeaker V F → Session V F
  registered s speaker = record s {
    speakers = put s.speakers speaker.session_speaker_id speaker;
    order = s.order ++ speaker.session_speaker_id ∷ [];
  }

  -- `_register`
  unfoldable pub register : SessionSpeaker V F → Exec (Session V F) (Unit {0})
  register speaker s =
      (do
        lift (raise_if (has s.speakers speaker.session_speaker_id) invalid_state_transition_error)
        modify (λ t. registered t speaker))
        s

  unfoldable pub create_session_speaker :
      Option String → Option String → String → Exec (Session V F) (SessionSpeaker V F)
  unfolding register
  create_session_speaker cluster_id label ulid = do
    full ← reads (λ s. leb s.config.max_session_speakers (active_speaker_count s))
    lift (raise_if full invalid_state_transition_error)
    modify (λ s. record s { label_counter = s.label_counter + 1 })
    machine ← lift (make_machine session_anonymous)
    index ← reads (λ s. s.label_counter)
    let speaker : SessionSpeaker V F =
        new_speaker (new_speaker_id ulid) machine (or_text label (speaker_label index)) cluster_id
    register speaker
    pure speaker

  unfoldable pub create_temporary_speaker : String → Exec (Session V F) (SessionSpeaker V F)
  unfolding register
  create_temporary_speaker ulid = do
    room ← reads can_admit_speaker
    lift (raise_if (not room) invalid_state_transition_error)
    modify (λ s. record s { temporary_counter = s.temporary_counter + 1 })
    machine ← lift (make_machine IdentityState.provisional)
    index ← reads (λ s. s.temporary_counter)
    let speaker : SessionSpeaker V F =
        new_speaker (new_speaker_id ulid) machine (temporary_label index) none
    register speaker
    pure speaker

  -- The sink enters provisional and takes the edge to unknown at once.
  unfoldable pub new_sink : String → Exec (Session V F) (SessionSpeaker V F)
  unfolding register
  new_sink ulid = do
    machine ← lift (make_machine IdentityState.provisional)
    (step, moved) ← lift (transition machine IdentityState.unknown "insufficient_evidence")
    let speaker : SessionSpeaker V F =
        new_speaker (new_speaker_id ulid) moved unattributed_label none
    register speaker
    modify (λ s. record s { unattributed_id = some speaker.session_speaker_id })
    pure speaker

  existing_or_new_sink : Option String → String → Exec (Session V F) (SessionSpeaker V F)
  existing_or_new_sink (some id) ulid = tries (λ s. speaker_at s.speakers id)
  existing_or_new_sink none ulid = new_sink ulid

  unfoldable pub unattributed_speaker : String → Exec (Session V F) (SessionSpeaker V F)
  unfolding existing_or_new_sink new_sink
  unattributed_speaker ulid s = existing_or_new_sink s.unattributed_id ulid s

  existing_or_created :
      Option (SessionSpeaker V F) → String → String → Exec (Session V F) (SessionSpeaker V F)
  existing_or_created (some existing) cluster_id ulid = pure existing
  existing_or_created none cluster_id ulid = create_session_speaker (some cluster_id) none ulid

  unfoldable pub ensure_cluster_speaker : String → String → Exec (Session V F) (SessionSpeaker V F)
  unfolding existing_or_created create_session_speaker
  ensure_cluster_speaker cluster_id ulid s =
      existing_or_created (by_cluster s cluster_id) cluster_id ulid s
