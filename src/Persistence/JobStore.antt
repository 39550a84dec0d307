-- ===== src/Persistence/JobStore.antt =====
-- src/sastt/adapters/persistence/memory.py: `InMemoryJobStore`. The records are mutable objects of
-- which the store holds the only one that its methods use, so a method writes the new record back.
pub mod Idempotency
pub mod Tenants
use speaker_attributed_stt.Prelude.{
  ℕ, String, Bool, true, false, not, ◌||◌, Option, none, some, List, [], str_eq, if◌then◌else◌,
}
use speaker_attributed_stt.Prelude.Dict.{Dict, put, empty}
use speaker_attributed_stt.Errors.{
  Result, ok, err, key_error, idempotency_conflict_error, tenant_access_denied_error, raise_if,
  ◌>>=◌, ◌>>◌,
}
use speaker_attributed_stt.Jobs.{JobState, queued, JobRecord, job_transition}

pub record JobStore : Type 0 where
  pub jobs : Dict JobRecord
  -- `_by_key`, by tenant and key.
  pub by_key : String → String → Option String

abbrev pub empty_store : JobStore
empty_store = record { jobs = empty; by_key = λ tenant key. none }

-- `self._by_key[(tenant, key)] = id`
unfoldable pub put_key :
    (String → String → Option String) → String → String → String → String → String → Option String
put_key d tenant key id t k =
    if str_eq tenant t then (if str_eq key k then some id else d t k) else d t k

abbrev pub new_job : String → String → String → String → Option String → JobRecord
new_job job_id tenant_id idempotency_key input_hash config_version = record {
  job_id = job_id;
  tenant_id = tenant_id;
  idempotency_key = idempotency_key;
  input_hash = input_hash;
  state = queued;
  config_version = config_version;
  error_code = none;
  warnings = [];
  degraded = false;
}

found_or_key_error : Option JobRecord → Result JobRecord
found_or_key_error none = err key_error
found_or_key_error (some job) = ok job

-- `self._jobs[id]`
unfoldable pub job_at : JobStore → String → Result JobRecord
unfolding found_or_key_error
job_at s id = found_or_key_error (s.jobs id)

-- The arguments of `create_or_get`.
pub record Request : Type 0 where
  pub tenant_id : String
  pub idempotency_key : String
  pub input_hash : String
  pub config_version : Option String

return_existing : JobStore → Request → String → Result ((JobRecord × Bool) × JobStore)
return_existing s r id = do
  existing ← job_at s id
  raise_if (not (str_eq existing.input_hash r.input_hash)) idempotency_conflict_error
  ok ((existing, false), s)

-- The store after a job was made under the new id.
unfoldable pub with_job : JobStore → Request → String → JobStore
with_job s r id = record {
  jobs = put s.jobs id (new_job id r.tenant_id r.idempotency_key r.input_hash r.config_version);
  by_key = put_key s.by_key r.tenant_id r.idempotency_key id;
}

-- The two branches on `self._by_key.get(key)`.
create_for : JobStore → Request → String → Option String → Result ((JobRecord × Bool) × JobStore)
unfolding return_existing
create_for s r fresh (some id) = return_existing s r id
create_for s r fresh none = ok (
  (new_job fresh r.tenant_id r.idempotency_key r.input_hash r.config_version, true),
  with_job s r fresh,
)

-- `fresh` is the answer of `new_id("job")`.
unfoldable pub create_or_get : JobStore → Request → String → Result ((JobRecord × Bool) × JobStore)
unfolding create_for
create_or_get s r fresh = create_for s r fresh (s.by_key r.tenant_id r.idempotency_key)

owned_by : String → Option JobRecord → Result JobRecord
owned_by tenant_id none = err tenant_access_denied_error
owned_by tenant_id (some job) =
    if str_eq job.tenant_id tenant_id then ok job else err tenant_access_denied_error

unfoldable pub get : JobStore → String → String → Result JobRecord
unfolding owned_by
get s tenant_id job_id = owned_by tenant_id (s.jobs job_id)

-- Writes a job back under its key.
abbrev pub write : JobStore → String → JobRecord → JobStore
write s id job = record s { jobs = put s.jobs id job }

unfoldable pub update_state : JobStore → String → String → JobState → Result (JobRecord × JobStore)
update_state s tenant_id job_id state = do
  job ← get s tenant_id job_id
  moved ← job_transition job state
  ok (moved, write s job_id moved)

unfoldable pub set_error : JobStore → String → String → String → Result (JobRecord × JobStore)
set_error s tenant_id job_id error_code = do
  job ← get s tenant_id job_id
  let changed : JobRecord = record job { error_code = some error_code }
  ok (changed, write s job_id changed)
