-- ===== src/Identity.antt =====
-- src/sastt/domain/speakers.py: the speaker identity state machine.
pub mod History
use speaker_attributed_stt.Prelude.{
  ℕ, ◌+◌, String, Bool, true, false, not, ◌||◌, List, [], ◌∷◌, ◌++◌, if◌then◌else◌, length, any,
}
use speaker_attributed_stt.Errors.{
  Result, ok, err, invalid_state_transition_error, raise_if, ◌>>=◌, ◌>>◌,
}

pub data IdentityState : Type 0 where
  provisional session_anonymous enrolled merged ambiguous unknown : IdentityState

-- The public values.
pub data IdentityStatus : Type 0 where
  provisional enrolled anonymous unknown ambiguous : IdentityStatus

-- `is` on the members of the enumeration.
unfoldable pub is_state : IdentityState → IdentityState → Bool
is_state IdentityState.provisional IdentityState.provisional = true
is_state session_anonymous session_anonymous = true
is_state IdentityState.enrolled IdentityState.enrolled = true
is_state merged merged = true
is_state IdentityState.ambiguous IdentityState.ambiguous = true
is_state IdentityState.unknown IdentityState.unknown = true
is_state _ _ = false

abbrev initial_states : List IdentityState
initial_states = IdentityState.provisional ∷ session_anonymous ∷ []

unfoldable pub allowed_transitions : IdentityState → List IdentityState
allowed_transitions IdentityState.provisional =
    session_anonymous ∷ IdentityState.enrolled ∷ IdentityState.unknown ∷ []
allowed_transitions session_anonymous = IdentityState.enrolled ∷ merged ∷ []
allowed_transitions merged = session_anonymous ∷ []
allowed_transitions IdentityState.enrolled = IdentityState.ambiguous ∷ []
allowed_transitions IdentityState.ambiguous = IdentityState.enrolled ∷ IdentityState.unknown ∷ []
allowed_transitions IdentityState.unknown = []

unfoldable pub public_status : IdentityState → IdentityStatus
public_status IdentityState.provisional = IdentityStatus.provisional
public_status session_anonymous = anonymous
public_status merged = anonymous
public_status IdentityState.enrolled = IdentityStatus.enrolled
public_status IdentityState.ambiguous = IdentityStatus.ambiguous
public_status IdentityState.unknown = IdentityStatus.unknown

pub record StateTransition : Type 0 where
  pub from_state : IdentityState
  pub to_state : IdentityState
  pub reason : String
  pub revision : ℕ

-- `SpeakerIdentityStateMachine`
pub record Machine : Type 0 where
  pub state : IdentityState
  pub history : List StateTransition

-- `state in INITIAL_STATES`
unfoldable pub is_initial : IdentityState → Bool
unfolding is_state
is_initial s = any (is_state s) initial_states

-- `__init__`
unfoldable pub make_machine : IdentityState → Result Machine
unfolding is_initial
make_machine initial = do
  raise_if (not (is_initial initial)) invalid_state_transition_error
  ok (record { state = initial; history = [] })

unfoldable pub status : Machine → IdentityStatus
unfolding public_status
status m = public_status m.state

unfoldable pub revision : Machine → ℕ
revision m = length m.history + 1

-- `to_state in ALLOWED_TRANSITIONS[from]`
unfoldable pub is_allowed : IdentityState → IdentityState → Bool
unfolding is_state allowed_transitions
is_allowed from to = any (is_state to) (allowed_transitions from)

unfoldable pub can_transition : Machine → IdentityState → Bool
unfolding is_allowed
can_transition m to_state = is_allowed m.state to_state

-- The transition that is recorded, and the machine after it.
abbrev pub step_of : Machine → IdentityState → String → StateTransition
step_of m to_state reason = record {
  from_state = m.state;
  to_state = to_state;
  reason = reason;
  revision = revision m + 1;
}

abbrev pub moved : Machine → IdentityState → String → Machine
moved m to_state reason = record {
  state = to_state;
  history = m.history ++ step_of m to_state reason ∷ [];
}

-- A refused transition raises before it changes anything.
unfoldable pub transition : Machine → IdentityState → String → Result (StateTransition × Machine)
unfolding can_transition revision
transition m to_state reason = do
  raise_if (not (can_transition m to_state)) invalid_state_transition_error
  ok (step_of m to_state reason, moved m to_state reason)
