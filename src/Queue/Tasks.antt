-- ===== src/Queue/Tasks.antt =====
-- src/sastt/adapters/queue/redis_queue.py: `RedisTaskQueue`. The clock, the new task ids and what
-- other clients do while `BRPOPLPUSH` waits are arguments.
use Prim.Native.String.{◌++◌ as join}
use speaker_attributed_stt.Prelude.{
  ℕ, zero, suc, ◌+◌, String, Bool, true, false, not, Option, none, some, List, [], ◌∷◌, str_eq,
  if◌then◌else◌, length, last?, any, leb, ltb, ◌==◌,
}
use speaker_attributed_stt.Errors.{
  Result, ok, err, sastt_error, redis_queue_overloaded_error, index_error, out_of_fuel, raise_if,
}
use speaker_attributed_stt.Exec.{Exec, pure, lift, reads, modify, ◌>>=◌, ◌>>◌}
use speaker_attributed_stt.Queue.Json.{Json, Fields, end, json_eq}
use speaker_attributed_stt.Queue.Task.{Task, Builtins, to_json, from_json, age_ms}
use speaker_attributed_stt.Queue.Redis.{Redis}

-- `ALL_QUEUES`
abbrev pub all_queues : List String
all_queues =
    "asr.realtime" ∷ "speaker.realtime" ∷ "asr.batch" ∷ "speaker.batch" ∷ "separation.two_source"
    ∷ "separation.beta" ∷ "gss.batch" ∷ "fusion" ∷ []

-- The attributes of a `RedisTaskQueue` beside its client.
pub record RedisTaskQueue : Type 0 where
  pub namespace : String
  pub max_depth : ℕ
  pub visibility_timeout_ms : ℕ

unfoldable pub key : RedisTaskQueue → String → String
key c queue = join c.namespace (join ":queue:" queue)

unfoldable pub processing_key : RedisTaskQueue → String → String → String
processing_key c queue consumer =
    join c.namespace (join ":processing:" (join queue (join ":" consumer)))

-- `f"{self.namespace}:dead:{task.queue}"`
unfoldable pub dead_key : RedisTaskQueue → String → String
dead_key c queue = join c.namespace (join ":dead:" queue)

-- `payload or {}`
abbrev pub payload_or_empty : Option Fields → Fields
payload_or_empty none = end
payload_or_empty (some fs) = fs

abbrev pub new_task : String → String → String → Option Fields → ℕ → String → Task
new_task queue tenant_id job_id payload now_ms task_id = record {
  task_id = task_id;
  queue = queue;
  tenant_id = tenant_id;
  job_id = job_id;
  payload = payload_or_empty payload;
  enqueued_ms = now_ms;
  attempts = 0;
}

-- The task with one attempt more.
abbrev pub tried : Task → Task
tried t = record t { attempts = t.attempts + 1 }

module _ (R : Redis json_eq) (py : Builtins) (c : RedisTaskQueue) where
  open R use {Store, items, lpush, rpop, rpoplpush, lrem, delete}

  unfoldable pub depth : Store → String → ℕ
  depth s queue = length (items s (key c queue))

  -- `task_id` is the new id, `f"tsk_{uuid.uuid4().hex[:20]}"`.
  unfoldable pub enqueue : String → String → String → Option Fields → ℕ → String → Exec Store Task
  unfolding depth
  enqueue queue tenant_id job_id payload now_ms task_id = do
    lift (raise_if (not (any (str_eq queue) all_queues)) sastt_error)
    full ← reads (λ s. leb c.max_depth (depth s queue))
    lift (raise_if full redis_queue_overloaded_error)
    let task : Task = new_task queue tenant_id job_id payload now_ms task_id
    modify (λ s. lpush s (key c queue) (to_json task))
    pure task

  -- `Task.from_json(raw) if raw else None`; no text of a task is empty.
  unfoldable pub decoded : Option Json → Result (Option Task)
  decoded none = ok none
  decoded (some raw) = elim (from_json py raw) [ err e ↦ err e | ok task ↦ ok (some task) ]

  -- The loop over the queues: the first text that was ready.
  unfoldable pub poll : List String → String → Store → Option Json × Store
  poll [] consumer s = (none, s)
  poll (q ∷ qs) consumer s =
      let (raw, s') = rpoplpush s (key c q) (processing_key c q consumer) in
      elim raw [ some v ↦ (some v, s') | none ↦ poll qs consumer s' ]

  -- `BRPOPLPUSH` on the first queue. There is none in an empty list.
  unfoldable pub block : List String → String → Exec Store (Option Task)
  unfolding decoded
  block [] consumer s = (err index_error, s)
  block (q ∷ qs) consumer s =
      let (raw, s') = rpoplpush s (key c q) (processing_key c q consumer) in (decoded raw, s')

  -- `meanwhile` is what other clients do to the store while the last command waits.
  unfoldable pub reserve : List String → String → (Store → Store) → Exec Store (Option Task)
  unfolding poll block decoded
  reserve queues consumer meanwhile s =
      let (raw, s') = poll queues consumer s in
      elim raw [ some v ↦ (decoded (some v), s') | none ↦ block queues consumer (meanwhile s') ]

  unfoldable pub ack : Task → String → Store → Bool × Store
  ack task consumer s =
      let (removed, s') = lrem s (processing_key c task.queue consumer) (to_json task) in
      (not (removed == 0), s')

  unfoldable pub retry : Task → String → ℕ → Store → Bool × Store
  unfolding ack
  retry task consumer max_attempts s =
      let (held, s') = ack task consumer s in
      if leb max_attempts (task.attempts + 1)
      then (false, lpush s' (dead_key c task.queue) (to_json (tried task)))
      else (true, lpush s' (key c task.queue) (to_json (tried task)))

  -- The loop of `requeue_stale`; `clock` tells the time of each round by the tasks moved so far.
  unfoldable pub requeue_from : ℕ → String → String → (ℕ → ℕ) → ℕ → Exec Store ℕ
  requeue_from zero queue consumer clock moved s = (err out_of_fuel, s)
  requeue_from (suc rounds) queue consumer clock moved s =
      let (popped, s') = rpop s (processing_key c queue consumer) in
      elim popped [
        | none ↦ (ok moved, s')
        | some raw ↦ elim (from_json py raw) [
          | err e ↦ (err e, s')
          | ok task ↦ elim (ltb (age_ms task (clock moved)) c.visibility_timeout_ms) [
            | true ↦ (ok moved, lpush s' (processing_key c queue consumer) raw)
            | false ↦
                requeue_from rounds queue consumer clock (moved + 1) (lpush s' (key c queue) raw)
          ]
        ]
      ]

  -- Each round but the last takes a text off the list.
  unfoldable pub requeue_stale : String → String → (ℕ → ℕ) → Exec Store ℕ
  unfolding requeue_from
  requeue_stale queue consumer clock s =
      requeue_from (suc (length (items s (processing_key c queue consumer)))) queue consumer clock 0
        s

  unfoldable pub oldest_age_ms : Store → String → ℕ → Result ℕ
  oldest_age_ms s queue now_ms = elim (last? (items s (key c queue))) [
    | none ↦ ok 0
    | some raw ↦ elim (from_json py raw) [ err e ↦ err e | ok task ↦ ok (age_ms task now_ms) ]
  ]

  unfoldable pub purge : Store → String → ℕ × Store
  unfolding depth
  purge s queue = (depth s queue, delete s (key c queue))
