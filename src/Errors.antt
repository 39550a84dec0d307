-- ===== src/Errors.antt =====
-- src/sastt/domain/errors.py: the error codes and the exception classes. Fallible code returns a
-- `Result` of the exception's class; its details are not modelled, nor its text, which one caller reads.
pub mod Codes
use speaker_attributed_stt.Prelude.{◌≡◌, refl, ◌⊎◌, inl, inr, Bool, true, false, Option, none, some}

pub data ErrorCode : Type 0 where
  unsupported_audio_format invalid_channel_layout audio_too_long model_not_ready : ErrorCode
  model_license_disabled unsupported_concurrency separation_failed : ErrorCode
  voice_id_uncalibrated insufficient_speech_for_embedding queue_overloaded : ErrorCode
  tenant_access_denied session_clock_discontinuity : ErrorCode

-- The exceptions that the modelled code raises: the classes of errors.py, those that two adapters
-- declare for themselves, and Python's own.
pub data Error : Type 0 where
  unsupported_audio_format_error invalid_channel_layout_error audio_too_long_error : Error
  model_not_ready_error model_license_disabled_error unsupported_concurrency_error : Error
  separation_failed_error voice_id_uncalibrated_error : Error
  insufficient_speech_for_embedding_error queue_overloaded_error tenant_access_denied_error : Error
  session_clock_discontinuity_error configuration_error invalid_state_transition_error : Error
  schema_invariant_error sastt_error idempotency_conflict_error redis_queue_overloaded_error : Error
  value_error type_error key_error index_error : Error
  -- No exception: the bound that the model puts on a loop was reached.
  out_of_fuel : Error

-- The class attribute `code`, by class.
unfoldable pub error_code : Error → Option ErrorCode
error_code unsupported_audio_format_error = some unsupported_audio_format
error_code invalid_channel_layout_error = some invalid_channel_layout
error_code audio_too_long_error = some audio_too_long
error_code model_not_ready_error = some model_not_ready
error_code model_license_disabled_error = some model_license_disabled
error_code unsupported_concurrency_error = some unsupported_concurrency
error_code separation_failed_error = some separation_failed
error_code voice_id_uncalibrated_error = some voice_id_uncalibrated
error_code insufficient_speech_for_embedding_error = some insufficient_speech_for_embedding
error_code queue_overloaded_error = some queue_overloaded
error_code tenant_access_denied_error = some tenant_access_denied
error_code session_clock_discontinuity_error = some session_clock_discontinuity
error_code _ = none

-- What a method returns, or the exception that it raises.
pub data Result {ℓ} (A : Type ℓ) : Type ℓ where
  err : Error → Result A
  ok : A → Result A

module _ {ℓ κ} {X : Type ℓ} {Y : Type κ} where
  infixl 5 ◌>>=◌
  -- The first exception ends the method.
  abbrev pub ◌>>=◌ : Result X → (X → Result Y) → Result Y
  err error >>= next = err error
  ok value >>= next = next value

-- `if test: raise e`
abbrev pub raise_if : Bool → Error → Result (Unit {0})
raise_if false error = ok tt
raise_if true error = err error

infixl 5 ◌>>◌
-- A check before the rest.
abbrev pub ◌>>◌ {ℓ} : {Y : Type ℓ} → Result (Unit {0}) → Result Y → Result Y
err error >> rest = err error
ok passed >> rest = rest

module _ {ℓ κ} {X : Type ℓ} {Y : Type κ} where
  -- Where two steps succeed together, the first one succeeded with a value that the second one took.
  pub >>=-eq-ok :
      (first : Result X) (next : X → Result Y) {y : Y}
      → (first >>= next) ≡ ok y
      → (x : X) × (first ≡ ok x) × (next x ≡ ok y)
  >>=-eq-ok (err error) next both = cc
  >>=-eq-ok (ok x) next both = (x, refl, both)

pub Result-cases {ℓ} :
    {X : Type ℓ} (r : Result X) → ((e : Error) × (r ≡ err e)) ⊎ ((x : X) × (r ≡ ok x))
Result-cases (err e) = inl (e, refl)
Result-cases (ok x) = inr (x, refl)
