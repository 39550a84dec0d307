-- ===== src/Session.antt =====
-- src/sastt/application/session_state.py: the speakers of one session. The `SessionSpeaker` objects
-- are reached through the session's dict only, so changing one is writing it back under its id.
pub mod Creating
pub mod Evidence
pub mod Merging
pub mod Resolution
use speaker_attributed_stt.Prelude.{
  ℕ, zero, suc, ◌+◌, String, Bool, true, false, not, ◌&&◌, Option, none, some, List, [], ◌∷◌, ◌++◌,
  ltb, str_eq, if◌then◌else◌, length, filter,
}
use speaker_attributed_stt.Prelude.Dict.{Dict, put, empty}
use speaker_attributed_stt.Errors.{Result, ok, err, key_error, out_of_fuel, ◌>>=◌}
use speaker_attributed_stt.Identity
use speaker_attributed_stt.Identity.{Machine, IdentityState, IdentityStatus, is_state, status}
use speaker_attributed_stt.Embedding.{SpeakerPrototype}

-- src/sastt/domain/speakers.py: `SessionSpeaker`.
pub record SessionSpeaker (V F : Type 0) : Type 0 where
  pub session_speaker_id : String
  pub machine : Machine
  pub display_label : String
  pub cluster_id : Option String
  pub registry_speaker_id : Option String
  pub speaker_name : Option String
  pub prototype : Option (SpeakerPrototype V F)
  pub prototype_history : List (SpeakerPrototype V F)
  pub merged_into : Option String
  pub cannot_link : List String

-- What the code reads from the configuration; `minimum_speech_ms` is the configured number of
-- seconds in milliseconds.
pub record SessionConfig (F : Type 0) : Type 0 where
  pub max_session_speakers : ℕ
  pub minimum_speech_ms : ℕ
  pub update_from_separated_sources : Bool
  pub ambiguous_margin : Option F
  pub is_calibrated : Bool

pub record LabelChange : Type 0 where
  pub session_speaker_id : String
  pub previous_label : String
  pub new_label : String
  pub reason : String

-- `SessionSpeakerState`
pub record Session (V F : Type 0) : Type 0 where
  pub config : SessionConfig F
  pub embedding_model_version : String
  pub speakers : Dict (SessionSpeaker V F)
  pub order : List String
  pub pending_label_changes : List LabelChange
  pub temporary_counter : ℕ
  pub label_counter : ℕ
  pub unattributed_id : Option String

-- `a or b` on a text that may be missing or empty.
abbrev pub or_text : Option String → String → String
or_text none b = b
or_text (some a) b = if str_eq a "" then b else a

module _ {V F : Type 0} where
  abbrev pub speaker_state : SessionSpeaker V F → IdentityState
  speaker_state s = s.machine.state

  abbrev pub is_merged : SessionSpeaker V F → Bool
  is_merged s = elim s.merged_into [ none ↦ false | some target ↦ true ]

  unfoldable pub public_speaker_id : SessionSpeaker V F → String
  public_speaker_id s = or_text s.registry_speaker_id s.session_speaker_id

  found : Option (SessionSpeaker V F) → Result (SessionSpeaker V F)
  found none = err key_error
  found (some s) = ok s

  -- `self.speakers[id]`
  unfoldable pub speaker_at : Dict (SessionSpeaker V F) → String → Result (SessionSpeaker V F)
  unfolding found
  speaker_at d id = found (d id)

  -- The loop of `get` along `merged_into`, with at most this many rounds.
  unfoldable pub resolve : ℕ → Dict (SessionSpeaker V F) → String → Result (SessionSpeaker V F)
  unfolding speaker_at
  resolve zero d id = err out_of_fuel
  resolve (suc rounds) d id = speaker_at d id >>= λ s. elim s.merged_into [
    | none ↦ ok s
    | some target ↦ resolve rounds d target
  ]

  -- A chain of merges visits no speaker twice, so one round for each speaker and one more suffice.
  unfoldable pub get : Session V F → String → Result (SessionSpeaker V F)
  unfolding resolve
  get s id = resolve (suc (length s.order)) s.speakers id

  -- Writes a speaker object back.
  abbrev pub write : Session V F → SessionSpeaker V F → Session V F
  write s speaker = record s { speakers = put s.speakers speaker.session_speaker_id speaker }

  keep_active : Option (SessionSpeaker V F) → List (SessionSpeaker V F) → List (SessionSpeaker V F)
  keep_active none rest = rest
  keep_active (some s) rest = if is_merged s then rest else s ∷ rest

  -- The speakers of the list that are not merged. The ids of `order` are all registered.
  unfoldable pub active_in : Dict (SessionSpeaker V F) → List String → List (SessionSpeaker V F)
  unfolding keep_active
  active_in d [] = []
  active_in d (id ∷ ids) = keep_active (d id) (active_in d ids)

  unfoldable pub active : Session V F → List (SessionSpeaker V F)
  unfolding active_in
  active s = active_in s.speakers s.order

  unfoldable pub active_speaker_count : Session V F → ℕ
  unfolding active
  active_speaker_count s = length (active s)

  unfoldable pub can_admit_speaker : Session V F → Bool
  unfolding active_speaker_count
  can_admit_speaker s = ltb (active_speaker_count s) s.config.max_session_speakers

  abbrev has_cluster : String → SessionSpeaker V F → Bool
  has_cluster cluster s = elim s.cluster_id [ none ↦ false | some c ↦ str_eq c cluster ]

  first_of_cluster : String → List (SessionSpeaker V F) → Option (SessionSpeaker V F)
  first_of_cluster cluster [] = none
  first_of_cluster cluster (s ∷ rest) =
      if has_cluster cluster s then some s else first_of_cluster cluster rest

  -- The first speaker in order with the cluster that is not merged.
  unfoldable pub by_cluster : Session V F → String → Option (SessionSpeaker V F)
  unfolding first_of_cluster active
  by_cluster s cluster = first_of_cluster cluster (active s)

  unfoldable pub provisional_speakers : Session V F → List (SessionSpeaker V F)
  unfolding active is_state
  provisional_speakers s =
      filter (λ p. is_state (speaker_state p) IdentityState.provisional) (active s)

  with_prototype : List (SessionSpeaker V F) → List (SpeakerPrototype V F)
  with_prototype [] = []
  with_prototype (s ∷ rest) =
      let others = with_prototype rest in elim s.prototype [ none ↦ others | some p ↦ p ∷ others ]

  -- The linking targets: not those of provisional speakers.
  unfoldable pub prototypes : Session V F → List (SpeakerPrototype V F)
  unfolding with_prototype active is_state
  prototypes s =
      with_prototype
        (filter (λ p. not (is_state (speaker_state p) IdentityState.provisional)) (active s))

  unfoldable pub provisional_prototypes : Session V F → List (SpeakerPrototype V F)
  unfolding with_prototype provisional_speakers
  provisional_prototypes s = with_prototype (provisional_speakers s)

  unfoldable pub linking_prototypes : Session V F → List (SpeakerPrototype V F)
  unfolding with_prototype active
  linking_prototypes s = with_prototype (active s)
