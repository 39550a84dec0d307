-- ===== src/Worker/Rounds.antt =====
-- src/sastt/workers/offline_worker.py: what a round of the worker's loop does to its queue.
use speaker_attributed_stt.Prelude.{
  ℕ, ◌+◌, String, ◌≡◌, refl, sym, ap, subst, ◌∙◌, List, [], ◌∷◌, ◌++◌, if◌then◌else◌, leb,
  Bool-cases, inl, inr, arith,
}
use speaker_attributed_stt.Errors.{Result, ok, err, Error}
use speaker_attributed_stt.Queue.Json.{json_eq}
use speaker_attributed_stt.Queue.Task.{Task, Builtins, to_json, task_eq, task_eq_refl}
use speaker_attributed_stt.Queue.Redis.{Redis, remove_first}
use speaker_attributed_stt.Queue.Tasks.{
  RedisTaskQueue, key, processing_key, dead_key, ack, retry, tried,
}
use speaker_attributed_stt.Queue.Broker.{Broker}
use speaker_attributed_stt.Queue.Represents.{
  Represents, rpoplpush-taken, lrem-held, lpush-dead, lpush-waiting,
}
use speaker_attributed_stt.Queue.Refinement.{reserve-some}
use speaker_attributed_stt.Jobs.{failed}
use speaker_attributed_stt.Worker.{
  Ports, handle, fail_job, failure_code, after_failure, work, round, rounds,
}

-- The queue after a round for its oldest task, by what handling the task returned or raised.
unfoldable pub settled : Task → List Task → Broker → Result (Unit {0}) → Broker
settled t ts b (ok _) = record b { waiting = ts }
settled t ts b (err e) =
    if leb 3 (t.attempts + 1)
    then record b { waiting = ts; dead = tried t ∷ b.dead }
    else record b { waiting = ts ++ tried t ∷ [] }

module _ {W Audio Scenario Seconds Adapters Segments : Type 0}
    (p : Ports W Audio Scenario Seconds Adapters Segments) where
  -- The world outside redis after a round: a job is marked only when its task is given up.
  unfoldable pub settled_world : Task → Result (Unit {0}) → W → W
  settled_world t (ok _) w = w
  settled_world t (err e) w = if leb 3 (t.attempts + 1) then fail_job p t (p.str_of e w) w else w

  -- The job store takes the job's error code and then its state `failed`, from one world to another.
  pub MarksFailed : Task → String → W → W → Type 0
  MarksFailed t message w w2 =
      (w1 : W) × (p.set_error t.tenant_id t.job_id (failure_code message) w ≡ (ok tt, w1))
      × (p.update_state t.tenant_id t.job_id failed w1 ≡ (ok tt, w2))

  fail_job-eq :
      (t : Task) (message : String) (w w1 w2 : W)
      → p.set_error t.tenant_id t.job_id (failure_code message) w ≡ (ok tt, w1)
      → p.update_state t.tenant_id t.job_id failed w1 ≡ (ok tt, w2)
      → w2 ≡ fail_job p t message w
  unfolding fail_job
  fail_job-eq t message w w1 w2 recorded moved = ground (arith, recorded, moved)

  fail_job-MarksFailed :
      (t : Task) (message : String) (w : W)
      → ((code : String) (v : W)
          → (v' : W) × (p.set_error t.tenant_id t.job_id code v ≡ (ok tt, v')))
      → ((v : W) → (v' : W) × (p.update_state t.tenant_id t.job_id failed v ≡ (ok tt, v')))
      → MarksFailed t message w (fail_job p t message w)
  unfolding MarksFailed
  fail_job-MarksFailed t message w takes_code takes_state =
      let (w1, recorded) = takes_code (failure_code message) w in
      let (w2, moved) = takes_state w1 in
      let last : w2 ≡ fail_job p t message w = fail_job-eq t message w w1 w2 recorded moved in
      (
        w1,
        recorded,
        subst (λ v. p.update_state t.tenant_id t.job_id failed w1 ≡ (ok tt, v)) last moved,
      )

  module _ (R : Redis json_eq) (py : Builtins) (c : RedisTaskQueue) (queue consumer : String) where
    open R use {Store}

    module _ (s : Store) (w : W) (b : Broker) (t : Task) (ts : List Task) where
      -- The task is held, and then no longer.
      abbrev holding : Broker
      holding = record b { waiting = ts; held = t ∷ b.held }

      Settles : Result (Unit {0}) → Store → Type 0
      Settles done s' = Represents R py c t.queue consumer s' (settled t ts b done)

      -- The store without the task among those that are held.
      abbrev released : Store
      released = (R.lrem s (processing_key c t.queue consumer) (to_json t)).1

      released-waiting :
          Represents R py c t.queue consumer s holding
          → Represents R py c t.queue consumer released (record b { waiting = ts })
      released-waiting r =
          subst
            (λ found. Represents R py c t.queue consumer released (record b {
              waiting = ts;
              held = if found then b.held else t ∷ remove_first (task_eq t) b.held;
            }))
            (task_eq_refl t) (lrem-held R py c t.queue consumer s holding r t)

      failure-Settles :
          (e : Error) (w' : W)
          → Represents R py c t.queue consumer s holding
          → (s' : Store) × (after_failure p R py c (queue ∷ []) consumer t e s w'
              ≡ (s', settled_world t (err e) w'))
            × Settles (err e) s'
      unfolding after_failure settled settled_world Settles retry
      failure-Settles e w' r = elim (Bool-cases (leb 3 (t.attempts + 1))) [
        | inl spent ↦ (
          R.lpush released (dead_key c t.queue) (to_json (tried t)),
          rw spent refl,
          rw spent (lpush-dead R py c t.queue consumer released _ (released-waiting r) (tried t)),
        )
        | inr left ↦ (
          R.lpush released (key c t.queue) (to_json (tried t)),
          rw left refl,
          rw left (lpush-waiting R py c t.queue consumer released _ (released-waiting r) (tried t)),
        )
      ]

      work-Settles :
          (done : Result (Unit {0})) (w' : W)
          → handle p t w ≡ (done, w')
          → Represents R py c t.queue consumer s holding
          → (s' : Store) × (work p R py c (queue ∷ []) consumer t s w
              ≡ (s', settled_world t done w'))
            × Settles done s'
      unfolding work settled settled_world Settles ack
      work-Settles (ok u) w' handled r = (released, ground (arith, handled), released-waiting r)
      work-Settles (err e) w' handled r =
          let (s', same, r') = failure-Settles e w' r in (s', ground (arith, handled, same), r')

    -- Let the oldest task of the worker's queue be handled with some outcome. Then a round that no
    -- other client disturbs ends without an exception, and the consumer holds what it held before:
    -- a task that succeeded is gone, one that failed waits behind the others with one attempt more,
    -- and one that failed at its last attempt is given up and its job marked, while a job is not
    -- marked otherwise.
    pub round-settled :
        (s : Store) (w w' : W) (b : Broker) (t : Task) (ts : List Task) (done : Result (Unit {0}))
        → t.queue ≡ queue
        → b.waiting ≡ t ∷ ts
        → handle p t w ≡ (done, w')
        → Represents R py c queue consumer s b
        → (s' : Store) × (round p R py c (queue ∷ []) consumer (λ s. s) (s, w)
            ≡ (ok tt, (s', settled_world t done w')))
          × Represents R py c queue consumer s' (settled t ts b done)
    unfolding round Settles
    round-settled s w w' b t ts done here first handled r =
        let (s1, moved, r1) = rpoplpush-taken R py c queue consumer s b r t ts first in
        let r2 =
          subst
            (λ q. Represents R py c q consumer s1 (record b { waiting = ts; held = t ∷ b.held }))
            (sym here) r1 in
        let (s2, worked, r3) = work-Settles s1 w b t ts done w' handled r2 in
        (
          s2,
          ground (arith, reserve-some R py c queue consumer s s1 t moved, worked),
          subst (λ q. Represents R py c q consumer s2 (settled t ts b done)) here r3,
        )

    -- A task alone in the queue that was not tried yet and fails whenever it is handled does not stay
    -- there, where the job store takes its job's error code and state: after its third round it is
    -- given up, with its attempts counted, and nothing of it waits or is held. The last thing that
    -- the worker did was to store the code for the text of the last exception, and then to move the
    -- job to `failed`.
    pub rounds-give_up :
        (s : Store) (w : W) (b : Broker) (t : Task)
        → t.queue ≡ queue
        → t.attempts ≡ 0
        → b.waiting ≡ t ∷ []
        → ((n : ℕ) (v : W)
            → (e : Error) × (v' : W) × (handle p (record t { attempts = n }) v ≡ (err e, v')))
        → ((code : String) (v : W)
            → (v' : W) × (p.set_error t.tenant_id t.job_id code v ≡ (ok tt, v')))
        → ((v : W) → (v' : W) × (p.update_state t.tenant_id t.job_id failed v ≡ (ok tt, v')))
        → Represents R py c queue consumer s b
        → (s' : Store) × (e : Error) × (w' : W) × (w'' : W) × (v : W) × (handle p
              (record t { attempts = 2 })
              v
            ≡ (err e, w'))
          × (rounds p R py c (queue ∷ []) consumer ((λ s. s) ∷ (λ s. s) ∷ (λ s. s) ∷ []) (s, w)
              ≡ (ok tt, (s', w'')))
          × MarksFailed t (p.str_of e w') w' w''
          × Represents R py c queue consumer s'
              (record b { waiting = []; dead = record t { attempts = 3 } ∷ b.dead })
    unfolding rounds settled settled_world MarksFailed
    rounds-give_up s w b t here fresh alone fails takes_code takes_state r =
        let first : b.waiting ≡ record t { attempts = 0 } ∷ [] =
          alone ∙ ap (λ n. record t { attempts = n } ∷ []) fresh in
        let (e0, w1, f0) = fails 0 w in
        let (e1, w2, f1) = fails 1 w1 in
        let (e2, w3, f2) = fails 2 w2 in
        let (s1, run0, r1) =
          round-settled s w w1 b (record t { attempts = 0 }) [] (err e0) here first f0 r in
        let b1 : Broker = record b { waiting = record t { attempts = 1 } ∷ [] } in
        let (s2, run1, r2) =
          round-settled s1 w1 w2 b1 (record t { attempts = 1 }) [] (err e1) here refl f1 r1 in
        let b2 : Broker = record b { waiting = record t { attempts = 2 } ∷ [] } in
        let (s3, run2, r3) =
          round-settled s2 w2 w3 b2 (record t { attempts = 2 }) [] (err e2) here refl f2 r2 in
        (
          s3,
          e2,
          w3,
          fail_job p (record t { attempts = 2 }) (p.str_of e2 w3) w3,
          w2,
          f2,
          ground (arith, run0, run1, run2),
          fail_job-MarksFailed (record t { attempts = 2 }) (p.str_of e2 w3) w3 takes_code
              takes_state,
          r3,
        )
