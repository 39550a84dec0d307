-- ===== src/Examples/Queues.antt =====
-- A queue over lists in memory, and a worker whose tasks name no audio.
use speaker_attributed_stt.Prelude.{
  ℕ, ◌+◌, ◌≤◌, String, true, false, ◌≡◌, refl, Option, none, some, List, [], ◌∷◌, ◌++◌, str_eq,
  if◌then◌else◌, last?, any, length,
}
use speaker_attributed_stt.Errors.{ok, err, Error, sastt_error, value_error}
use speaker_attributed_stt.Queue.Json.{Json, json_eq}
use speaker_attributed_stt.Queue.Task.{Task, Builtins, to_json, from_json, lookup, age_ms}
use speaker_attributed_stt.Queue.Redis.{Redis, init, remove_first}
use speaker_attributed_stt.Queue.Tasks.{
  RedisTaskQueue, key, processing_key, dead_key, new_task, requeue_stale, enqueue, reserve, ack,
}
use speaker_attributed_stt.Queue.Broker.{
  Broker, Op, submit, take, finish, taken, finished, serve_all, accepted,
}
use speaker_attributed_stt.Queue.Represents.{Represents, pushed}
use speaker_attributed_stt.Queue.Refinement.{call, call_all, call_all_refines}
use speaker_attributed_stt.Queue.Counting.{entries, accepted_count, acknowledged_count}
use speaker_attributed_stt.Queue.NoLoss.{Act, asks, recovers, act_all, act_all-keeps}
use speaker_attributed_stt.Queue.Stale.{requeue_stale_lem, AreExpired, IsLeased, rotated}
use speaker_attributed_stt.Worker.{Ports, handle, failure_code, round, rounds}
use speaker_attributed_stt.Worker.Rounds.{
  round-settled, rounds-give_up, settled, settled_world, MarksFailed,
}

abbrev Lists : Type 0
Lists = String → List Json

abbrev with_list : Lists → String → List Json → Lists
with_list s k l j = if str_eq k j then l else s j

abbrev transferred : Lists → String → String → Option Json → Lists
transferred s k l none = with_list s k (init (s k))
transferred s k l (some v) =
    with_list (with_list s k (init (s k))) l (v ∷ with_list s k (init (s k)) l)

moved_lem :
    (s : Lists) (k l : String) (o : Option Json)
    → ◌≡◌ {A = Option Json × Lists}
        (o, transferred s k l o)
        (
          o,
          elim o [
            | none ↦ with_list s k (init (s k))
            | some v ↦ with_list (with_list s k (init (s k))) l (v ∷ with_list s k (init (s k)) l)
          ],
        )
moved_lem s k l none = refl
moved_lem s k l (some v) = refl

abbrev in_memory : Redis json_eq
in_memory = record {
  Store = Lists;
  items = λ s k. s k;
  lpush = λ s k v. with_list s k (v ∷ s k);
  rpop = λ s k. (last? (s k), with_list s k (init (s k)));
  rpoplpush = λ s k l. (last? (s k), transferred s k l (last? (s k)));
  lrem = λ s k v.
      (if any (json_eq v) (s k) then 1 else 0, with_list s k (remove_first (json_eq v) (s k)));
  delete = λ s k. with_list s k [];
  items-lpush = λ s k v j. refl;
  rpop_value = λ s k. refl;
  items-rpop = λ s k j. refl;
  rpoplpush_lem = λ s k l. moved_lem s k l (last? (s k));
  lrem_value = λ s k v. refl;
  items-lrem = λ s k v j. refl;
  items-delete = λ s k j. refl;
}

abbrev builtins : Builtins
builtins = record { repr = λ fs. "{}"; int_of_text = λ s. err value_error }

abbrev settings : RedisTaskQueue
settings = record { namespace = "sastt"; max_depth = 2; visibility_timeout_ms = 100 }

abbrev no_lists : Lists
no_lists k = []

abbrev nothing : Broker
nothing = record { waiting = []; held = []; dead = [] }

nothing-Represents : Represents in_memory builtins settings "fusion" "host:1" no_lists nothing
unfolding pushed
nothing-Represents = record { waits = refl; holds = refl; gave_up = refl }

abbrev first_task : Task
first_task = new_task "fusion" "t" "job_1" none 7 "tsk_1"

abbrev requests : List Op
requests = submit "t" "job_1" none 7 "tsk_1" ∷ take ∷ finish first_task ∷ take ∷ []

replies_test :
    (call_all in_memory builtins settings "fusion" "host:1" no_lists requests).0
    ≡ accepted first_task ∷ taken (some first_task) ∷ finished true ∷ taken none ∷ []
unfolding call_all call enqueue reserve ack key from_json to_json processing_key json_eq
replies_test = refl

call_all_refines_example :
    ((call_all in_memory builtins settings "fusion" "host:1" no_lists requests).0
      ≡ (serve_all 2 "fusion" nothing requests).0)
    × Represents in_memory builtins settings "fusion" "host:1"
        (call_all in_memory builtins settings "fusion" "host:1" no_lists requests).1
        (serve_all 2 "fusion" nothing requests).1
call_all_refines_example =
    call_all_refines in_memory builtins settings "fusion" "host:1" refl requests
      (tt, (tt, (refl, (tt, tt)))) no_lists nothing nothing-Represents

-- The consumer takes a task and starts again long after; then it takes the task again and ends it.
abbrev acts : List Act
acts =
    asks (submit "t" "job_1" none 7 "tsk_1")
    ∷ asks take
    ∷ recovers (λ moved_so_far. 1000)
    ∷ asks take
    ∷ asks (finish first_task)
    ∷ []

recovers_test :
    (act_all in_memory builtins settings "fusion" "host:1" no_lists acts).0.1
    ≡ accepted first_task ∷ taken (some first_task) ∷ taken (some first_task) ∷ finished true ∷ []
unfolding act_all call enqueue reserve ack key from_json to_json processing_key json_eq
    requeue_stale age_ms
recovers_test = refl

act_all-keeps_example :
    (b' : Broker) × Represents in_memory builtins settings "fusion" "host:1"
      (act_all in_memory builtins settings "fusion" "host:1" no_lists acts).1
      b'
    × (entries "tsk_1" nothing
          + accepted_count "tsk_1"
              (act_all in_memory builtins settings "fusion" "host:1" no_lists acts).0.1
        ≤ entries "tsk_1" b'
          + acknowledged_count "tsk_1"
              (act_all in_memory builtins settings "fusion" "host:1" no_lists acts).0.0
              (act_all in_memory builtins settings "fusion" "host:1" no_lists acts).0.1)
act_all-keeps_example =
    act_all-keeps in_memory builtins settings "fusion" "host:1" "tsk_1" refl acts
      (tt, (tt, (tt, (tt, (refl, tt))))) no_lists nothing nothing-Represents

-- A task that is held, and one that waits.
abbrev holding_lists : Lists
holding_lists =
    with_list no_lists (processing_key settings "fusion" "host:1") (to_json first_task ∷ [])

holding-texts : holding_lists (processing_key settings "fusion" "host:1") ≡ pushed (first_task ∷ [])
unfolding processing_key pushed
holding-texts = refl

abbrev late : ℕ → ℕ
late moved_so_far = 1000

requeue_stale_lem_example :
    (gone : List Task) × (left : List Task) × (s' : Lists) × (first_task ∷ [] ≡ gone ++ left)
    × AreExpired in_memory builtins settings "fusion" "host:1" late 0 gone
    × IsLeased in_memory builtins settings "fusion" "host:1" late (length gone) left
    × (requeue_stale in_memory builtins settings "fusion" "host:1" late holding_lists
        ≡ (ok (length gone), s'))
    × (s' (key settings "fusion") ≡ pushed gone ++ holding_lists (key settings "fusion"))
    × (s' (processing_key settings "fusion" "host:1")
        ≡ pushed (rotated in_memory builtins settings "fusion" "host:1" late left))
requeue_stale_lem_example =
    requeue_stale_lem in_memory builtins settings "fusion" "host:1" late (first_task ∷ [])
      holding_lists holding-texts

abbrev waiting_lists : Lists
waiting_lists = with_list no_lists (key settings "fusion") (to_json first_task ∷ [])

abbrev one_waits : Broker
one_waits = record { waiting = first_task ∷ []; held = []; dead = [] }

one-Represents : Represents in_memory builtins settings "fusion" "host:1" waiting_lists one_waits
unfolding key processing_key dead_key pushed
one-Represents = record { waits = refl; holds = refl; gave_up = refl }

-- The outside world is the list of the error codes that were recorded.
abbrev ports : Ports (List String) ℕ ℕ ℕ ℕ ℕ
ports = record {
  get_object = λ tenant_id key w. ok 0;
  load_scenario = λ name. ok 0;
  truthy = λ v. true;
  to_float = λ v. ok 3600;
  adapters = λ scenario w. (ok 0, w);
  run = λ adapters audio language timeout job_id report w.
      (ok (record { segments = 0; warnings = []; degraded = false }), w);
  update_state = λ tenant_id job_id state w. (ok tt, "moved" ∷ w);
  save_result = λ tenant_id job_id result w. (ok tt, w);
  set_error = λ tenant_id job_id code w. (ok tt, code ∷ w);
  str_of = λ e w. "two separation models";
}

no_audio :
    (n : ℕ) (w : List String)
    → handle ports (record first_task { attempts = n }) w ≡ (err sastt_error, w)
unfolding handle lookup
no_audio n w = refl

round-settled_example :
    (s' : Lists) × (round ports in_memory builtins settings
        ("fusion" ∷ [])
        "host:1"
        (λ s. s)
        (waiting_lists, [])
      ≡ (ok tt, (s', settled_world ports first_task (err sastt_error) [])))
    × Represents in_memory builtins settings "fusion" "host:1" s'
        (settled first_task [] one_waits (err sastt_error))
round-settled_example =
    round-settled ports in_memory builtins settings "fusion" "host:1" waiting_lists [] [] one_waits
      first_task [] (err sastt_error) refl refl (no_audio 0 []) one-Represents

named : failure_code "two separation models" ≡ "SEPARATION_FAILED"
unfolding failure_code
named = refl

unnamed : failure_code "task has no audio_key" ≡ "MODEL_NOT_READY"
unfolding failure_code
unnamed = refl

rounds-give_up_example :
    (s' : Lists) × (e : Error) × (w' : List String) × (w'' : List String) × (v : List String)
    × (handle ports (record first_task { attempts = 2 }) v ≡ (err e, w'))
    × (rounds ports in_memory builtins settings
          ("fusion" ∷ [])
          "host:1"
          ((λ s. s) ∷ (λ s. s) ∷ (λ s. s) ∷ [])
          (waiting_lists, [])
        ≡ (ok tt, (s', w'')))
    × MarksFailed ports first_task "two separation models" w' w''
    × Represents in_memory builtins settings "fusion" "host:1" s'
        (record one_waits { waiting = []; dead = record first_task { attempts = 3 } ∷ [] })
rounds-give_up_example =
    rounds-give_up ports in_memory builtins settings "fusion" "host:1" waiting_lists [] one_waits
      first_task refl refl refl (λ n w. (sastt_error, w, no_audio n w)) (λ code w. (code ∷ w, refl))
      (λ w. ("moved" ∷ w, refl)) one-Represents
