-- ===== src/Examples/Stores.antt =====
-- A job, an event and an object in their stores.
use speaker_attributed_stt.Persistence.JobStore.Idempotency.{Steps, create_or_get_idempotent}
use speaker_attributed_stt.Errors.{idempotency_conflict_error, err, ok}
use speaker_attributed_stt.Jobs.{queued, JobRecord}
use speaker_attributed_stt.Events.Log.{session_started, ServerEvent}
use speaker_attributed_stt.Persistence.EventStore.Monotone.{
  make_store-IsOrdered, append-IsOrdered, IsOrdered,
}
use speaker_attributed_stt.Prelude.Dict.{empty, put}
use speaker_attributed_stt.Prelude.{
  eq_iff, ◌≢◌, str_eq, Option, String, false, true, ℕ, ◌≡◌, refl, none, List, [], ◌∷◌,
}
use speaker_attributed_stt.Persistence.JobStore.{
  Request, JobStore, with_job, create_or_get, new_job, empty_store,
}
use speaker_attributed_stt.Persistence.JobStore.Tenants.{
  Call, moves, marks, caller, AreForeign, after_all, SeesSame, after_all-SeesSame,
}
use speaker_attributed_stt.Persistence.EventStore.{EventStore, append, make_store, events_of}

differ : (a b : String) → str_eq a b ≡ false → a ≢ b
differ a b h e = let same = (eq_iff a b).1 e in cc

abbrev request : Request
request = record { tenant_id = "t"; idempotency_key = "k"; input_hash = "h"; config_version = none }

abbrev made : JobRecord
made = new_job "j" "t" "k" "h" none

abbrev holding : JobStore
holding = with_job empty_store request "j"

creates : create_or_get empty_store request "j" ≡ ok ((made, true), holding)
unfolding create_or_get
creates = refl

create_or_get_idempotent_example :
    (again : JobRecord) × (create_or_get holding request "j2" ≡ ok ((again, false), holding))
    × (again.job_id ≡ "j")
    × (create_or_get holding (record request { input_hash = "g" }) "j2"
        ≡ err idempotency_conflict_error)
create_or_get_idempotent_example =
    create_or_get_idempotent empty_store holding holding request "j" "j2" "g" made creates
      Steps.here (differ "h" "g" refl)

-- Another tenant uses the same key, and tries the job of the first.
abbrev foreign_calls : List Call
foreign_calls =
    Call.creates (record request { tenant_id = "u" }) "j2"
    ∷ moves "u" "j" queued
    ∷ marks "u" "j2" "E"
    ∷ []

foreign_calls-AreForeign : AreForeign "t" holding foreign_calls
unfolding caller with_job put
foreign_calls-AreForeign =
    (differ "u" "t" refl, refl, (differ "u" "t" refl, tt, (differ "u" "t" refl, tt, tt)))

after_all-SeesSame_example : SeesSame "t" holding (after_all holding foreign_calls)
after_all-SeesSame_example = after_all-SeesSame "t" holding foreign_calls foreign_calls-AreForeign

abbrev stored_event : ServerEvent ℕ
stored_event = record {
  event_id = "e";
  session_id = "s";
  sequence_number = 1;
  event_type = session_started;
  server_time_ms = 5;
  revision = 1;
  supersedes_event_id = none;
  is_final = false;
  payload = 7;
  model_versions = [];
  config_version = none;
  dedup_key = none;
}

abbrev one_event : EventStore ℕ
one_event = record {
  retention = 3;
  events = put empty "s" (stored_event ∷ []);
  keys = ("s", "e", 1) ∷ [];
}

appends : append (make_store 3) stored_event ≡ ok (stored_event, one_event)
unfolding append
appends = refl

append-IsOrdered_example :
    IsOrdered one_event
    × (stored_event ≡ stored_event)
    × (events_of one_event "r" ≡ events_of (make_store 3) "r")
append-IsOrdered_example =
    append-IsOrdered (make_store 3) one_event stored_event stored_event "r" (make_store-IsOrdered 3)
      appends (differ "s" "r" refl)

abbrev nothing : String → String → Option ℕ
nothing tenant key = none
