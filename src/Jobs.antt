-- ===== src/Jobs.antt =====
-- src/sastt/domain/events.py: the job states and the persisted `JobRecord`.
pub mod Lifecycle
use Prim.Native.String.{◌++◌ as join}
use speaker_attributed_stt.Prelude.{
  ℕ, String, Bool, true, false, not, ◌&&◌, Option, none, some, List, [], ◌∷◌, ◌==◌, any,
}
use speaker_attributed_stt.Errors.{Result, ok, err, value_error, raise_if, ◌>>=◌, ◌>>◌}

pub data JobState : Type 0 where
  queued preprocessing diarizing transcribing separating linking fusing : JobState
  succeeded degraded_succeeded failed cancelled : JobState

-- The place of the member in the enumeration, by which members are compared.
unfoldable pub ordinal : JobState → ℕ
ordinal queued = 0
ordinal preprocessing = 1
ordinal diarizing = 2
ordinal transcribing = 3
ordinal separating = 4
ordinal linking = 5
ordinal fusing = 6
ordinal succeeded = 7
ordinal degraded_succeeded = 8
ordinal failed = 9
ordinal cancelled = 10

-- `a is b`
unfoldable pub is_job_state : JobState → JobState → Bool
unfolding ordinal
is_job_state a b = ordinal a == ordinal b

abbrev terminal_job_states : List JobState
terminal_job_states = succeeded ∷ degraded_succeeded ∷ failed ∷ cancelled ∷ []

unfoldable pub is_terminal : JobState → Bool
unfolding is_job_state
is_terminal s = any (is_job_state s) terminal_job_states

pub record JobRecord : Type 0 where
  pub job_id : String
  pub tenant_id : String
  pub idempotency_key : String
  pub input_hash : String
  pub state : JobState
  pub config_version : Option String
  pub error_code : Option String
  pub warnings : List String
  pub degraded : Bool

-- `transition`
unfoldable pub job_transition : JobRecord → JobState → Result JobRecord
job_transition job state = do
  raise_if (is_terminal job.state && not (is_job_state state job.state)) value_error
  ok (record job { state = state })

-- The text that is hashed, `f"{tenant_id}|{idempotency_key}|{input_hash}"`.
unfoldable pub fingerprint_payload : String → String → String → String
fingerprint_payload tenant_id idempotency_key input_hash =
    join tenant_id (join "|" (join idempotency_key (join "|" input_hash)))

-- `hexdigest` is SHA-256 of the text's UTF-8 bytes, in hexadecimal.
unfoldable pub idempotency_fingerprint : (String → String) → String → String → String → String
unfolding fingerprint_payload
idempotency_fingerprint hexdigest tenant_id idempotency_key input_hash =
    hexdigest (fingerprint_payload tenant_id idempotency_key input_hash)
