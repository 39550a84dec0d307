-- ===== src/Queue/Broker.antt =====
-- What redis_queue.py promises of one queue and one consumer, without redis and JSON: a bounded
-- first-in-first-out queue, the tasks the consumer holds, and those that were given up.
use speaker_attributed_stt.Prelude.{
  ℕ, ◌+◌, String, Bool, true, false, Option, none, some, List, [], ◌∷◌, ◌++◌, if◌then◌else◌, length,
  any, leb,
}
use speaker_attributed_stt.Errors.{Error, redis_queue_overloaded_error}
use speaker_attributed_stt.Queue.Json.{Fields}
use speaker_attributed_stt.Queue.Task.{Task, task_eq}
use speaker_attributed_stt.Queue.Redis.{remove_first}
use speaker_attributed_stt.Queue.Tasks.{new_task, tried}

pub record Broker : Type 0 where
  -- The oldest task first.
  pub waiting : List Task
  -- The task taken last first.
  pub held : List Task
  pub dead : List Task

pub data Op : Type 0 where
  submit : String → String → Option Fields → ℕ → String → Op
  take : Op
  finish : Task → Op
  give_back : Task → ℕ → Op

pub data Reply : Type 0 where
  refused : Error → Reply
  accepted : Task → Reply
  taken : Option Task → Reply
  finished : Bool → Reply
  given_back : Bool → Reply

unfoldable pub take_from : List Task → Broker → Reply × Broker
take_from [] b = (taken none, b)
take_from (t ∷ ts) b = (taken (some t), record b { waiting = ts; held = t ∷ b.held })

module _ (max_depth : ℕ) (queue : String) where
  unfoldable pub submit_task : Task → Broker → Reply × Broker
  submit_task t b =
      if leb max_depth (length b.waiting)
      then (refused redis_queue_overloaded_error, b)
      else (accepted t, record b { waiting = b.waiting ++ t ∷ [] })

  unfoldable pub serve : Broker → Op → Reply × Broker
  unfolding submit_task take_from
  serve b (submit tenant_id job_id payload now_ms task_id) =
      submit_task (new_task queue tenant_id job_id payload now_ms task_id) b
  serve b take = take_from b.waiting b
  serve b (finish t) =
      (finished (any (task_eq t) b.held), record b { held = remove_first (task_eq t) b.held })
  serve b (give_back t max_attempts) =
      let kept = remove_first (task_eq t) b.held in
      if leb max_attempts (t.attempts + 1)
      then (given_back false, record b { held = kept; dead = tried t ∷ b.dead })
      else (given_back true, record b { held = kept; waiting = b.waiting ++ tried t ∷ [] })

  unfoldable pub serve_all : Broker → List Op → List Reply × Broker
  serve_all b [] = ([], b)
  serve_all b (op ∷ ops) =
      let (r, b') = serve b op in let (rs, b'') = serve_all b' ops in (r ∷ rs, b'')
