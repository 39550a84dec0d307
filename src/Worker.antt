-- ===== src/Worker.antt =====
-- src/sastt/workers/offline_worker.py: `OfflineWorker`, one consumer of the batch queues. The
-- pipeline, the models, the stores and the test fixtures are ports; logging and timing are left out.
pub mod Rounds
use speaker_attributed_stt.Prelude.{
  ℕ, String, Bool, true, false, ◌==◌, ◌&&◌, ◌||◌, Option, none, some, List, [], ◌∷◌, str_eq,
  if◌then◌else◌,
}
use speaker_attributed_stt.Prelude.Text.{codes}
use speaker_attributed_stt.Errors.{Result, ok, err, Error, sastt_error}
use speaker_attributed_stt.Exec.{Exec, pure, lift, tries, ◌>>=◌, ◌>>◌}
use speaker_attributed_stt.Jobs.{JobState, succeeded, degraded_succeeded, failed}
use speaker_attributed_stt.Queue.Json.{Json, null, number, text, json_eq}
use speaker_attributed_stt.Queue.Task.{Task, Builtins, lookup}
use speaker_attributed_stt.Queue.Redis.{Redis}
use speaker_attributed_stt.Queue.Tasks.{RedisTaskQueue, reserve, ack, retry, requeue_stale}

-- What `OfflinePipeline.run` hands back, as far as the worker reads it.
pub record Transcribed (Segments : Type 0) : Type 0 where
  pub segments : Segments
  pub warnings : List String
  pub degraded : Bool

-- What a worker calls. `W` is the state of the world outside redis.
pub record Ports (W Audio Scenario Seconds Adapters Segments : Type 0) : Type 0 where
  -- `self.objects.get(tenant_id, key)`
  pub get_object : String → String → W → Result Audio
  -- `Scenario.load` of the fixture of this name, for a name that is not empty.
  pub load_scenario : Json → Result Scenario
  -- `bool(v)` and `float(v)`
  pub truthy : Json → Bool
  pub to_float : Json → Result Seconds
  -- `self.adapters(scenario)`, which loads the models at its first call.
  pub adapters : Option Scenario → Exec W Adapters
  -- The pipeline's run, with the configuration's language replaced, its deadline and the job's id;
  -- it reports each stage to the last argument.
  pub run :
      Adapters
      → Audio
      → Option String
      → Seconds
      → String
      → (JobState → Exec W (Unit {0}))
      → Exec W (Transcribed Segments)
  -- The job store's methods take the tenant and the job.
  pub update_state : String → String → JobState → Exec W (Unit {0})
  pub save_result : String → String → Transcribed Segments → Exec W (Unit {0})
  pub set_error : String → String → String → Exec W (Unit {0})
  -- `str(exc)` of the exception that handling a task ended with, in the world that it left.
  pub str_of : Error → W → String

-- The type of an object's key that is a text, and not an empty one.
audio_key_of : Option Json → Result String
audio_key_of (some (text s)) = if str_eq s "" then err sastt_error else ok s
audio_key_of _ = err sastt_error

-- `None` or a text.
language_of : Option Json → Result (Option String)
language_of none = ok none
language_of (some null) = ok none
language_of (some (text s)) = ok (some s)
language_of (some _) = err sastt_error

is_prefix : List ℕ → List ℕ → Bool
is_prefix [] ys = true
is_prefix (x ∷ xs) [] = false
is_prefix (x ∷ xs) (y ∷ ys) = (x == y) && is_prefix xs ys

-- `part in whole`, on code points.
occurs_in : List ℕ → List ℕ → Bool
unfolding is_prefix
occurs_in xs [] = is_prefix xs []
occurs_in xs (y ∷ ys) = is_prefix xs (y ∷ ys) || occurs_in xs ys

-- The code that a job gets for the text of an exception.
unfoldable pub failure_code : String → String
unfolding occurs_in
failure_code message =
    if occurs_in (codes "separation") (codes message)
    then "SEPARATION_FAILED"
    else "MODEL_NOT_READY"

module _ {W Audio Scenario Seconds Adapters Segments : Type 0}
    (p : Ports W Audio Scenario Seconds Adapters Segments) where
  -- `_load_audio`
  unfoldable pub load_audio : Task → Exec W Audio
  unfolding audio_key_of
  load_audio task = do
    key ← lift (audio_key_of (lookup "audio_key" task.payload))
    tries (p.get_object task.tenant_id key)

  -- The scenario that the task names, if any.
  scenario_of : Option Json → Result (Option Scenario)
  scenario_of none = ok none
  scenario_of (some v) =
      if p.truthy v
      then elim (p.load_scenario v) [ ok scenario ↦ ok (some scenario) | err e ↦ err e ]
      else ok none

  -- `float(task.payload.get("timeout_seconds", 3600))`
  timeout_of : Option Json → Result Seconds
  timeout_of none = p.to_float (number 3600)
  timeout_of (some v) = p.to_float v

  outcome_of : Transcribed Segments → JobState
  outcome_of result = if result.degraded then degraded_succeeded else succeeded

  unfoldable pub handle : Task → Exec W (Unit {0})
  unfolding load_audio scenario_of timeout_of language_of outcome_of
  handle task = do
    audio ← load_audio task
    scenario ← lift (scenario_of (lookup "scenario" task.payload))
    timeout ← lift (timeout_of (lookup "timeout_seconds" task.payload))
    language ← lift (language_of (lookup "language" task.payload))
    adapters ← p.adapters scenario
    result ←
        p.run adapters audio language timeout task.job_id
          (p.update_state task.tenant_id task.job_id)
    p.save_result task.tenant_id task.job_id result
    p.update_state task.tenant_id task.job_id (outcome_of result)

  -- `_fail_job`: an exception on the way is logged and forgotten.
  unfoldable pub fail_job : Task → String → W → W
  unfolding failure_code
  fail_job task message w =
      let (recorded, w1) = p.set_error task.tenant_id task.job_id (failure_code message) w in
      elim recorded [ err e' ↦ w1 | ok _ ↦ (p.update_state task.tenant_id task.job_id failed w1).1 ]

  module _ (R : Redis json_eq) (py : Builtins) (c : RedisTaskQueue) (queues : List String)
      (consumer : String) where
    open R use {Store}

    -- What the worker does with a task that failed.
    unfoldable pub after_failure : Task → Error → Store → W → Store × W
    unfolding fail_job
    after_failure task e s w =
        let (again, s') = retry R py c task consumer 3 s in
        (s', if again then w else fail_job task (p.str_of e w) w)

    -- What the worker does with a task that it reserved.
    unfoldable pub work : Task → Store → W → Store × W
    unfolding after_failure
    work task s w =
        let (done, w') = handle task w in
        elim done [
          | ok _ ↦ ((ack R py c task consumer s).1, w')
          | err e ↦ after_failure task e s w'
        ]

    -- One round of the loop of `run_forever`. Only `reserve` can end the worker by an exception.
    unfoldable pub round : (Store → Store) → Exec (Store × W) (Unit {0})
    unfolding work
    round meanwhile (s, w) =
        let (r, s') = reserve R py c queues consumer meanwhile s in
        elim r [
          | err e ↦ (err e, (s', w))
          | ok o ↦ elim o [ none ↦ (ok tt, (s', w)) | some task ↦ (ok tt, work task s' w) ]
        ]

    -- The loop, for as many rounds as are made before the worker is told to stop.
    unfoldable pub rounds : List (Store → Store) → Exec (Store × W) (Unit {0})
    rounds [] = pure tt
    rounds (meanwhile ∷ rest) = round meanwhile >> rounds rest

    -- The first loop of `run_forever`.
    unfoldable pub recover : List String → (ℕ → ℕ) → Exec (Store × W) (Unit {0})
    recover [] clock (s, w) = (ok tt, (s, w))
    recover (q ∷ qs) clock (s, w) =
        let (r, s') = requeue_stale R py c q consumer clock s in
        elim r [ err e ↦ (err e, (s', w)) | ok moved ↦ recover qs clock (s', w) ]

    unfoldable pub run_forever : (ℕ → ℕ) → List (Store → Store) → Exec (Store × W) (Unit {0})
    unfolding recover rounds
    run_forever clock waits = recover queues clock >> rounds waits
