-- ===== src/Queue/Recovery.antt =====
-- src/sastt/adapters/queue/redis_queue.py: what `requeue_stale` does to the broker's state.
use mathlib.Core.List.{map-append}
use speaker_attributed_stt.Prelude.{
  ℕ, zero, suc, ◌+◌, String, ◌≡◌, refl, sym, ap, subst, ◌∙◌, List, [], ◌∷◌, ◌++◌, append_assoc,
  append-nil, map, arith, length, Option-cases, inl, inr,
}
use speaker_attributed_stt.Errors.{Result, ok}
use speaker_attributed_stt.Queue.Json.{Json, json_eq}
use speaker_attributed_stt.Queue.Task.{Task, Builtins, to_json}
use speaker_attributed_stt.Queue.Redis.{Redis}
use speaker_attributed_stt.Queue.Tasks.{
  RedisTaskQueue, key, processing_key, dead_key, requeue_from, requeue_stale,
}
use speaker_attributed_stt.Queue.Keys.{key-ne-dead, processing-ne-dead}
use speaker_attributed_stt.Queue.Broker.{Broker}
use speaker_attributed_stt.Queue.Represents.{Represents, pushed, pushed-snoc}
use speaker_attributed_stt.Queue.Stale.{requeue_stale_lem, rotated}
use speaker_attributed_stt.Queue.Counting.{copies, copies-append, entries}

pushed-append : (ts us : List Task) → pushed (ts ++ us) ≡ pushed us ++ pushed ts
unfolding pushed
pushed-append [] us = sym (append-nil (pushed us))
pushed-append (t ∷ ts) us =
    ap (λ l. l ++ to_json t ∷ []) (pushed-append ts us)
    ∙ append_assoc (pushed us) (pushed ts) (to_json t ∷ [])

module _ (id : String) where
  -- The tasks of a list, the other end first.
  oldest_first :
      (held : List Task)
      → (ts : List Task) × (map to_json held ≡ pushed ts) × (copies id ts ≡ copies id held)
  unfolding pushed copies
  oldest_first [] = ([], refl, refl)
  oldest_first (t ∷ held) =
      let (ts, same, count) = oldest_first held in
      (
        ts ++ t ∷ [],
        ap (λ l. to_json t ∷ l) same ∙ sym (pushed-snoc ts t),
        omega (arith, count, copies-append id ts (t ∷ [])),
      )

  newest_first :
      (ts : List Task)
      → (held : List Task) × (pushed ts ≡ map to_json held) × (copies id held ≡ copies id ts)
  unfolding pushed copies
  newest_first [] = ([], refl, refl)
  newest_first (t ∷ ts) =
      let (held, same, count) = newest_first ts in
      (
        held ++ t ∷ [],
        ap (λ l. l ++ to_json t ∷ []) same ∙ sym (map-append to_json held (t ∷ [])),
        omega (arith, count, copies-append id held (t ∷ [])),
      )

module _ (R : Redis json_eq) (py : Builtins) (c : RedisTaskQueue) (queue consumer : String)
    (clock : ℕ → ℕ) where
  open R use {Store, items, lpush, rpop}

  module _ (s : Store) where
    popped-dead :
        items (rpop s (processing_key c queue consumer)).1 (dead_key c queue)
        ≡ items s (dead_key c queue)
    popped-dead = R.items-rpop _ _ _ ∙ rw (processing-ne-dead c queue consumer queue) refl

    -- The loop leaves the tasks that were given up.
    IsKept : Result ℕ × Store → Type 0
    IsKept (r, s') = items s' (dead_key c queue) ≡ items s (dead_key c queue)

  -- Putting the text that was popped to the processing list or to the queue.
  put-dead :
      (s : Store) (raw : Json)
      → (items
            (lpush
              (rpop s (processing_key c queue consumer)).1
              (processing_key c queue consumer)
              raw)
            (dead_key c queue)
          ≡ items s (dead_key c queue))
        × (items
              (lpush (rpop s (processing_key c queue consumer)).1 (key c queue) raw)
              (dead_key c queue)
            ≡ items s (dead_key c queue))
  put-dead s raw = (
    R.items-lpush _ _ _ _ ∙ rw (processing-ne-dead c queue consumer queue) (popped-dead s),
    R.items-lpush _ _ _ _ ∙ rw (key-ne-dead c queue queue) (popped-dead s),
  )

  requeue_from-IsKept :
      (rounds moved : ℕ) (s : Store)
      → IsKept s (requeue_from R py c rounds queue consumer clock moved s)
  unfolding requeue_from IsKept
  requeue_from-IsKept zero moved s = refl
  requeue_from-IsKept (suc rounds) moved s =
      let same = popped-dead s in
      elim (Option-cases (rpop s (processing_key c queue consumer)).0) [
        | inl empty ↦ ground (arith, empty, same)
        | inr (raw, there) ↦
            let (to_processing, to_queue) = put-dead s raw in
            let after = lpush (rpop s (processing_key c queue consumer)).1 (key c queue) raw in
            let rest = requeue_from-IsKept rounds (moved + 1) after in
            ground (arith, there, same, to_processing, rest ∙ to_queue)
      ]

  rotated-copies :
      (id : String) (ts : List Task)
      → copies id (rotated R py c queue consumer clock ts) ≡ copies id ts
  unfolding copies
  rotated-copies id [] = refl
  rotated-copies id (t ∷ ts) = omega (arith, copies-append id ts (t ∷ []))

  requeue_stale-dead :
      (s s' : Store) (n : ℕ)
      → requeue_stale R py c queue consumer clock s ≡ (ok n, s')
      → items s' (dead_key c queue) ≡ items s (dead_key c queue)
  unfolding requeue_stale IsKept
  requeue_stale-dead s s' n run =
      subst (IsKept s) run
        (requeue_from-IsKept (suc (length (items s (processing_key c queue consumer)))) 0 s)

  -- From lists that hold a broker's state `requeue_stale` ends without an exception, and in lists
  -- that hold one with as many entries of each task.
  pub requeue_stale-Represents :
      (id : String) (s : Store) (b : Broker)
      → Represents R py c queue consumer s b
      → (b' : Broker) × (n : ℕ) × (s' : Store) × (requeue_stale R py c queue consumer clock s
          ≡ (ok n, s'))
        × Represents R py c queue consumer s' b'
        × (entries id b' ≡ entries id b)
  requeue_stale-Represents id s b r =
      let (ts, texts, count) = oldest_first id b.held in
      let (gone, left, s', split, old, leased, run, queued, processing) =
        requeue_stale_lem R py c queue consumer clock ts s (r.holds ∙ texts) in
      let (held, back, kept) = newest_first id (rotated R py c queue consumer clock left) in
      (
        record b { waiting = b.waiting ++ gone; held = held },
        length gone,
        s',
        run,
        record {
          waits = queued ∙ ap (λ l. pushed gone ++ l) r.waits ∙ sym (pushed-append b.waiting gone);
          holds = processing ∙ back;
          gave_up = requeue_stale-dead s s' (length gone) run ∙ r.gave_up;
        },
        omega (
          arith,
          count,
          kept,
          rotated-copies id left,
          ap (copies id) split,
          copies-append id gone left,
          copies-append id b.waiting gone,
        ),
      )
