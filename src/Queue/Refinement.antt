-- ===== src/Queue/Refinement.antt =====
-- `RedisTaskQueue` on one of its queues and one consumer refines the broker.
use speaker_attributed_stt.Prelude.{
  ℕ, ◌+◌, String, true, ◌≡◌, refl, sym, ap, subst, ◌∙◌, Option, none, some, List, [], ◌∷◌, length,
  any, leb, str_eq, Bool-cases, inl, inr, arith, All,
}
use mathlib.Core.Path.{ap₂}
use speaker_attributed_stt.Errors.{Result, ok, err}
use speaker_attributed_stt.Queue.Json.{Json, Fields, json_eq}
use speaker_attributed_stt.Queue.Task.{Task, Builtins, to_json, from_json-to_json}
use speaker_attributed_stt.Queue.Redis.{Redis}
use speaker_attributed_stt.Queue.Tasks.{
  RedisTaskQueue, key, processing_key, enqueue, reserve, poll, block, decoded, ack, retry,
  all_queues, tried,
}
use speaker_attributed_stt.Queue.Broker.{
  Broker, Op, submit, take, finish, give_back, Reply, taken, finished, given_back, serve, serve_all,
  submit_task, take_from, refused, accepted,
}
use speaker_attributed_stt.Queue.Represents.{
  Represents, lpush-waiting, lpush-dead, lrem-held, lrem-removed, rpoplpush-taken, rpoplpush-none,
  length-pushed,
}

-- What a call returned or raised.
abbrev submitted : Result Task → Reply
submitted (ok t) = accepted t
submitted (err e) = refused e

abbrev reserved : Result (Option Task) → Reply
reserved (ok o) = taken o
reserved (err e) = refused e

-- A task that the consumer has is one of this queue.
abbrev pub IsOn : String → Op → Type 0
IsOn queue (finish t) = t.queue ≡ queue
IsOn queue (give_back t max_attempts) = t.queue ≡ queue
IsOn queue _ = Unit

-- The methods that a task's own queue decides.
module _ (R : Redis json_eq) (py : Builtins) (c : RedisTaskQueue) (consumer : String)
    (t : Task) where
  open R use {Store}

  module _ (s : Store) (b : Broker) (r : Represents R py c t.queue consumer s b) where
    pub ack-Agree :
        (finished (ack R py c t consumer s).0 ≡ (serve c.max_depth t.queue b (finish t)).0)
        × Represents R py c t.queue consumer
            (ack R py c t consumer s).1
            (serve c.max_depth t.queue b (finish t)).1
    unfolding serve ack
    ack-Agree = (
      ap finished (lrem-removed R py c t.queue consumer s b r t),
      lrem-held R py c t.queue consumer s b r t,
    )

    pub retry-Agree :
        (max_attempts : ℕ)
        → (given_back (retry R py c t consumer max_attempts s).0
            ≡ (serve c.max_depth t.queue b (give_back t max_attempts)).0)
          × Represents R py c t.queue consumer
              (retry R py c t consumer max_attempts s).1
              (serve c.max_depth t.queue b (give_back t max_attempts)).1
    unfolding serve retry
    retry-Agree max_attempts =
        let released = lrem-held R py c t.queue consumer s b r t in
        elim (Bool-cases (leb max_attempts (t.attempts + 1))) [
          | inl spent ↦ rw spent (refl, lpush-dead R py c t.queue consumer _ _ released (tried t))
          | inr left ↦ rw left (refl, lpush-waiting R py c t.queue consumer _ _ released (tried t))
        ]

-- Reserving from one queue.
module _ (R : Redis json_eq) (py : Builtins) (c : RedisTaskQueue) (queue consumer : String) where
  open R use {Store, rpoplpush}

  poll_one :
      (s s1 : Store) (raw : Option Json)
      → rpoplpush s (key c queue) (processing_key c queue consumer) ≡ (raw, s1)
      → poll R py c (queue ∷ []) consumer s ≡ (raw, s1)
  unfolding poll
  poll_one s s1 none moved = ground arith
  poll_one s s1 (some v) moved = ground arith

  pub reserve-some :
      (s s1 : Store) (t : Task)
      → rpoplpush s (key c queue) (processing_key c queue consumer) ≡ (some (to_json t), s1)
      → reserve R py c (queue ∷ []) consumer (λ s. s) s ≡ (ok (some t), s1)
  unfolding reserve block decoded
  reserve-some s s1 t moved =
      ground (arith, poll_one s s1 (some (to_json t)) moved, from_json-to_json py t)

  reserve-none :
      (s s1 s2 : Store)
      → rpoplpush s (key c queue) (processing_key c queue consumer) ≡ (none, s1)
      → rpoplpush s1 (key c queue) (processing_key c queue consumer) ≡ (none, s2)
      → reserve R py c (queue ∷ []) consumer (λ s. s) s ≡ (ok none, s2)
  unfolding reserve block decoded
  reserve-none s s1 s2 first second = ground (arith, poll_one s s1 none first, second)

module _ (R : Redis json_eq) (py : Builtins) (c : RedisTaskQueue) (queue consumer : String) where
  open R use {Store, items}

  -- The method that a request of the broker stands for. No other client acts while it waits.
  unfoldable pub call : Store → Op → Reply × Store
  call s (submit tenant_id job_id payload now_ms task_id) =
      let (r, s') = enqueue R py c queue tenant_id job_id payload now_ms task_id s in
      (submitted r, s')
  call s take = let (r, s') = reserve R py c (queue ∷ []) consumer (λ s. s) s in (reserved r, s')
  call s (finish t) = let (done, s') = ack R py c t consumer s in (finished done, s')
  call s (give_back t max_attempts) =
      let (again, s') = retry R py c t consumer max_attempts s in (given_back again, s')

  unfoldable pub call_all : Store → List Op → List Reply × Store
  call_all s [] = ([], s)
  call_all s (op ∷ ops) =
      let (r, s') = call s op in let (rs, s'') = call_all s' ops in (r ∷ rs, s'')

  module _ (known : any (str_eq queue) all_queues ≡ true) (s : Store) (b : Broker)
      (r : Represents R py c queue consumer s b) where
    -- The two make the same reply and end in states that correspond.
    abbrev Agree : Op → Type 0
    Agree op =
        ((call s op).0 ≡ (serve c.max_depth queue b op).0)
        × Represents R py c queue consumer (call s op).1 (serve c.max_depth queue b op).1

    submit-Agree :
        (tenant_id job_id : String) (payload : Option Fields) (now_ms : ℕ) (task_id : String)
        → Agree (submit tenant_id job_id payload now_ms task_id)
    unfolding call serve enqueue submit_task
    submit-Agree tenant_id job_id payload now_ms task_id =
        let deep : length (items s (key c queue)) ≡ length b.waiting =
          ap length r.waits ∙ length-pushed b.waiting in
        elim (Bool-cases (leb c.max_depth (length b.waiting))) [
          | inl full ↦ rw (known, deep, full) (refl, r)
          | inr room ↦ rw (known, deep, room) (refl, lpush-waiting R py c queue consumer s b r _)
        ]

    take-Agree : (ts : List Task) → b.waiting ≡ ts → Agree take
    unfolding call serve take_from
    take-Agree [] e =
        let (s1, first, r1) = rpoplpush-none R py c queue consumer s b r e in
        let (s2, second, r2) = rpoplpush-none R py c queue consumer s1 b r1 e in
        rw (reserve-none R py c queue consumer s s1 s2 first second) (
          subst
            (λ ts.
              (taken none ≡ (take_from ts b).0)
              × Represents R py c queue consumer s2 (take_from ts b).1)
            (sym e) (refl, r2))
    take-Agree (t ∷ ts) e =
        let (s1, moved, r1) = rpoplpush-taken R py c queue consumer s b r t ts e in
        rw (reserve-some R py c queue consumer s s1 t moved) (
          subst
            (λ ts.
              (taken (some t) ≡ (take_from ts b).0)
              × Represents R py c queue consumer s1 (take_from ts b).1)
            (sym e) (refl, r1))

    -- The broker's queue is the task's, where the task is on this queue.
    AgreeOn : Reply → Store → Op → String → Type 0
    AgreeOn reply s' op q =
        Represents R py c q consumer s b
        → (reply ≡ (serve c.max_depth q b op).0)
          × Represents R py c q consumer s' (serve c.max_depth q b op).1

    pub call-Agree : (op : Op) → IsOn queue op → Agree op
    unfolding call AgreeOn
    call-Agree (submit tenant_id job_id payload now_ms task_id) on =
        submit-Agree tenant_id job_id payload now_ms task_id
    call-Agree take on = take-Agree b.waiting refl
    call-Agree (finish t) on =
        let (done, s') = ack R py c t consumer s in
        subst (AgreeOn (finished done) s' (finish t)) on (ack-Agree R py c consumer t s b) r
    call-Agree (give_back t max_attempts) on =
        let (again, s') = retry R py c t consumer max_attempts s in
        subst (AgreeOn (given_back again) s' (give_back t max_attempts)) on
          (λ r'. retry-Agree R py c consumer t s b r' max_attempts) r

  -- From lists that hold a broker's state, any sequence of enqueueing, reserving, acknowledging and
  -- retrying on one queue and by one consumer makes the replies that the broker makes, and ends in
  -- lists that hold the broker's final state: a bounded queue, first in and first out, whose tasks
  -- are held until they are acknowledged or given back, and are given up after their last attempt.
  pub call_all_refines :
      (known : any (str_eq queue) all_queues ≡ true) (ops : List Op)
      → All (IsOn queue) ops
      → (s : Store) (b : Broker) → Represents R py c queue consumer s b
      → ((call_all s ops).0 ≡ (serve_all c.max_depth queue b ops).0)
        × Represents R py c queue consumer (call_all s ops).1 (serve_all c.max_depth queue b ops).1
  unfolding call_all serve_all
  call_all_refines known [] on s b r = (refl, r)
  call_all_refines known (op ∷ ops) on s b r =
      let (same, r1) = call-Agree known s b r op on.0 in
      let (sames, r2) =
        call_all_refines known ops on.1 (call s op).1 (serve c.max_depth queue b op).1 r1 in
      (ap₂ (λ x xs. x ∷ xs) same sames, r2)
