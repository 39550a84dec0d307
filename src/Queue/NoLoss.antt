-- ===== src/Queue/NoLoss.antt =====
-- No task that redis_queue.py accepted disappears without an acknowledgement, unless a queue is purged.
use speaker_attributed_stt.Prelude.{
  ℕ, ◌+◌, ◌≤◌, String, true, ◌≡◌, sym, subst, List, [], ◌∷◌, any, str_eq, arith, All,
}
use speaker_attributed_stt.Queue.Json.{json_eq}
use speaker_attributed_stt.Queue.Task.{Builtins}
use speaker_attributed_stt.Queue.Redis.{Redis}
use speaker_attributed_stt.Queue.Tasks.{RedisTaskQueue, all_queues, requeue_stale}
use speaker_attributed_stt.Queue.Broker.{Broker, Op, Reply, serve}
use speaker_attributed_stt.Queue.Represents.{Represents}
use speaker_attributed_stt.Queue.Refinement.{IsOn, call, call-Agree}
use speaker_attributed_stt.Queue.Counting.{
  entries, accepted_count, acknowledged_count, Keeps, serve-Keeps, accepted-cons,
}
use speaker_attributed_stt.Queue.Recovery.{requeue_stale-Represents}

-- What the clients of one queue and one consumer do: a request, or the recovery of the tasks that
-- the consumer holds, with the clock of its rounds.
pub data Act : Type 0 where
  asks : Op → Act
  recovers : (ℕ → ℕ) → Act

abbrev pub IsActOn : String → Act → Type 0
IsActOn queue (asks op) = IsOn queue op
IsActOn queue (recovers clock) = Unit

module _ (R : Redis json_eq) (py : Builtins) (c : RedisTaskQueue) (queue consumer : String) where
  open R use {Store}

  -- The requests with their replies, and the store at the end.
  unfoldable pub act_all : Store → List Act → (List Op × List Reply) × Store
  act_all s [] = (([], []), s)
  act_all s (asks op ∷ acts) =
      let (r, s') = call R py c queue consumer s op in
      let (told, s'') = act_all s' acts in ((op ∷ told.0, r ∷ told.1), s'')
  act_all s (recovers clock ∷ acts) = act_all (requeue_stale R py c queue consumer clock s).1 acts

  module _ (id : String) where
    -- Lists that hold a broker's state again, and the numbers of entries, before and after.
    Conserves : Broker → (List Op × List Reply) × Store → Type 0
    Conserves b (told, s') =
        (b' : Broker) × Represents R py c queue consumer s' b'
        × (entries id b + accepted_count id told.1
            ≤ entries id b' + acknowledged_count id told.0 told.1)

    asked-Conserves :
        (s : Store) (b : Broker) (op : Op) (rest : (List Op × List Reply) × Store)
        → (call R py c queue consumer s op).0 ≡ (serve c.max_depth queue b op).0
        → Conserves (serve c.max_depth queue b op).1 rest
        → Conserves b ((op ∷ rest.0.0, (call R py c queue consumer s op).0 ∷ rest.0.1), rest.1)
    unfolding Conserves Keeps acknowledged_count
    asked-Conserves s b op rest same (b', r', enough) =
        let step = serve-Keeps id c.max_depth queue b op in
        (
          b',
          r',
          rw same (
              omega
                (arith, step, enough, accepted-cons id (serve c.max_depth queue b op).0 rest.0.1)),
        )

    -- Whatever sequence of enqueueing, reserving, acknowledging, retrying and recovering with
    -- `requeue_stale` there is on one queue by one consumer, from lists that hold a broker's state:
    -- the lists hold one afterwards, and for each id the entries before and those that were accepted
    -- since are at most the entries that are left and the acknowledgements that found their task. An
    -- entry is a task that waits, is held or was given up. `purge` is not among the calls.
    pub act_all-keeps :
        any (str_eq queue) all_queues ≡ true
        → (acts : List Act) → All (IsActOn queue) acts
        → (s : Store) (b : Broker) → Represents R py c queue consumer s b
        → (b' : Broker) × Represents R py c queue consumer (act_all s acts).1 b'
          × (entries id b + accepted_count id (act_all s acts).0.1
              ≤ entries id b' + acknowledged_count id (act_all s acts).0.0 (act_all s acts).0.1)
    unfolding act_all Conserves acknowledged_count accepted_count
    act_all-keeps known [] on s b r = (b, r, omega arith)
    act_all-keeps known (asks op ∷ acts) on s b r =
        let (same, r1) = call-Agree R py c queue consumer known s b r op on.0 in
        let s1 = (call R py c queue consumer s op).1 in
        asked-Conserves s b op (act_all s1 acts) same
          (act_all-keeps known acts on.1 s1 (serve c.max_depth queue b op).1 r1)
    act_all-keeps known (recovers clock ∷ acts) on s b r =
        let (b1, n, s1, run, r1, count) =
          requeue_stale-Represents R py c queue consumer clock id s b r in
        let left = requeue_stale R py c queue consumer clock s in
        let r2 : Represents R py c queue consumer left.1 b1 =
          subst (λ x. Represents R py c queue consumer x.1 b1) (sym run) r1 in
        let (b', r', enough) = act_all-keeps known acts on.1 left.1 b1 r2 in
        (b', r', omega (arith, count, enough))
