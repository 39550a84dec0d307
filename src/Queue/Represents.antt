-- ===== src/Queue/Represents.antt =====
-- When the redis lists of one queue and one consumer stand for a broker's state, and that the
-- commands which RedisTaskQueue sends keep it so.
use speaker_attributed_stt.Prelude.{
  ◌==◌, String, Bool, true, false, not, ◌≡◌, refl, sym, ap, ◌∙◌, none, some, List, [], ◌∷◌, ◌++◌,
  if◌then◌else◌, length, last?-append, any, length-append, eq_refl, map, arith,
}
use speaker_attributed_stt.Queue.Json.{Json, json_eq}
use speaker_attributed_stt.Queue.Task.{Task, Builtins, to_json, task_eq, json_eq-to_json}
use speaker_attributed_stt.Queue.Redis.{Redis, init-append, remove_first}
use speaker_attributed_stt.Queue.Tasks.{RedisTaskQueue, key, processing_key, dead_key}
use speaker_attributed_stt.Queue.Keys.{
  key-ne-processing, processing-ne-key, processing-ne-dead, dead-ne-processing, key-ne-dead,
  dead-ne-key,
}
use speaker_attributed_stt.Queue.Broker.{Broker}

-- The texts in a redis list of the tasks in the order in which they were pushed.
unfoldable pub pushed : List Task → List Json
pushed [] = []
pushed (t ∷ ts) = pushed ts ++ to_json t ∷ []

pub pushed-snoc : (ts : List Task) (t : Task) → pushed (ts ++ t ∷ []) ≡ to_json t ∷ pushed ts
unfolding pushed
pushed-snoc [] t = refl
pushed-snoc (u ∷ ts) t = ap (λ (l : List Json). l ++ to_json u ∷ []) (pushed-snoc ts t)

pub any-to_json :
    (t : Task) (ts : List Task) → any (json_eq (to_json t)) (map to_json ts) ≡ any (task_eq t) ts
any-to_json t [] = refl
any-to_json t (u ∷ ts) = ground (arith, any-to_json t ts, json_eq-to_json t u)

pub remove_first-to_json :
    (t : Task) (ts : List Task)
    → remove_first (json_eq (to_json t)) (map to_json ts)
      ≡ map to_json (remove_first (task_eq t) ts)
remove_first-to_json t [] = refl
remove_first-to_json t (u ∷ ts) = ground (arith, remove_first-to_json t ts, json_eq-to_json t u)

-- The number of removed texts, as a truth value.
one_or_none : (found : Bool) → not ((if found then 1 else 0) == 0) ≡ found
one_or_none true = refl
one_or_none false = refl

pub length-pushed : (ts : List Task) → length (pushed ts) ≡ length ts
unfolding pushed
length-pushed [] = refl
length-pushed (t ∷ ts) =
    omega (arith, length-append {0} (pushed ts) (to_json t ∷ []), length-pushed ts)

module _ (R : Redis json_eq) (py : Builtins) (c : RedisTaskQueue) (queue consumer : String) where
  open R use {Store, items, lpush, rpop, rpoplpush, lrem}

  -- What the lists of redis say, read by the broker's order.
  pub record Represents (s : Store) (b : Broker) : Type 0 where
    pub waits : items s (key c queue) ≡ pushed b.waiting
    pub holds : items s (processing_key c queue consumer) ≡ map to_json b.held
    pub gave_up : items s (dead_key c queue) ≡ map to_json b.dead

  module _ (s : Store) (b : Broker) (r : Represents s b) where
    pub lpush-waiting :
        (t : Task)
        → Represents
            (lpush s (key c queue) (to_json t))
            (record b { waiting = b.waiting ++ t ∷ [] })
    lpush-waiting t = record {
      waits =
          R.items-lpush s (key c queue) (to_json t) (key c queue)
          ∙ rw (eq_refl (key c queue), r.waits) (sym (pushed-snoc b.waiting t));
      holds =
          R.items-lpush s (key c queue) (to_json t) (processing_key c queue consumer)
          ∙ rw (key-ne-processing c queue consumer queue) r.holds;
      gave_up =
          R.items-lpush s (key c queue) (to_json t) (dead_key c queue)
          ∙ rw (key-ne-dead c queue queue) r.gave_up;
    }

    pub lpush-dead :
        (t : Task)
        → Represents (lpush s (dead_key c queue) (to_json t)) (record b { dead = t ∷ b.dead })
    lpush-dead t = record {
      waits =
          R.items-lpush s (dead_key c queue) (to_json t) (key c queue)
          ∙ rw (dead-ne-key c queue queue) r.waits;
      holds =
          R.items-lpush s (dead_key c queue) (to_json t) (processing_key c queue consumer)
          ∙ rw (dead-ne-processing c queue consumer queue) r.holds;
      gave_up =
          R.items-lpush s (dead_key c queue) (to_json t) (dead_key c queue)
          ∙ rw (eq_refl (dead_key c queue), r.gave_up) refl;
    }

    pub lrem-held :
        (t : Task)
        → Represents
            (lrem s (processing_key c queue consumer) (to_json t)).1
            (record b { held = remove_first (task_eq t) b.held })
    lrem-held t = record {
      waits =
          R.items-lrem s (processing_key c queue consumer) (to_json t) (key c queue)
          ∙ rw (processing-ne-key c queue consumer queue) r.waits;
      holds =
          R.items-lrem s (processing_key c queue consumer) (to_json t)
            (processing_key c queue consumer)
          ∙ rw (eq_refl (processing_key c queue consumer), r.holds) (remove_first-to_json t b.held);
      gave_up =
          R.items-lrem s (processing_key c queue consumer) (to_json t) (dead_key c queue)
          ∙ rw (processing-ne-dead c queue consumer queue) r.gave_up;
    }

    pub lrem-removed :
        (t : Task)
        → not ((lrem s (processing_key c queue consumer) (to_json t)).0 == 0)
          ≡ any (task_eq t) b.held
    lrem-removed t =
        rw
          (
            R.lrem_value s (processing_key c queue consumer) (to_json t),
            r.holds,
            any-to_json t b.held,
          )
          (one_or_none (any (task_eq t) b.held))

    module _ (t : Task) (ts : List Task) (first : b.waiting ≡ t ∷ ts) where
      texts : items s (key c queue) ≡ pushed ts ++ to_json t ∷ []
      unfolding pushed
      texts = r.waits ∙ ap pushed first

      rpop-taken : (rpop s (key c queue)).0 ≡ some (to_json t)
      rpop-taken = R.rpop_value s (key c queue) ∙ rw texts (last?-append (pushed ts) (to_json t))

      lpush-taken :
          Represents
            (lpush (rpop s (key c queue)).1 (processing_key c queue consumer) (to_json t))
            (record b { waiting = ts; held = t ∷ b.held })
      lpush-taken = record {
        waits =
            R.items-lpush _ _ _ (key c queue)
            ∙ rw (processing-ne-key c queue consumer queue) (
                R.items-rpop s (key c queue) (key c queue)
                ∙ rw (eq_refl (key c queue), texts) (init-append (pushed ts) (to_json t)));
        holds =
            R.items-lpush _ _ _ (processing_key c queue consumer)
            ∙ rw (eq_refl (processing_key c queue consumer)) (
                ap (λ l. to_json t ∷ l)
                  (R.items-rpop s (key c queue) (processing_key c queue consumer)
                    ∙ rw (key-ne-processing c queue consumer queue) r.holds));
        gave_up =
            R.items-lpush _ _ _ (dead_key c queue)
            ∙ rw (processing-ne-dead c queue consumer queue) (
                R.items-rpop s (key c queue) (dead_key c queue)
                ∙ rw (key-ne-dead c queue queue) r.gave_up);
      }

      -- The oldest waiting task moves to the head of the tasks that are held.
      pub rpoplpush-taken :
          (after : Store) × (rpoplpush s (key c queue) (processing_key c queue consumer)
            ≡ (some (to_json t), after))
          × Represents after (record b { waiting = ts; held = t ∷ b.held })
      rpoplpush-taken = (
        lpush (rpop s (key c queue)).1 (processing_key c queue consumer) (to_json t),
        R.rpoplpush_lem s (key c queue) (processing_key c queue consumer) ∙ rw rpop-taken refl,
        lpush-taken,
      )

    -- Nothing is taken from an empty queue.
    pub rpoplpush-none :
        b.waiting ≡ []
        → (after : Store) × (rpoplpush s (key c queue) (processing_key c queue consumer)
            ≡ (none, after))
          × Represents after b
    unfolding pushed
    rpoplpush-none empty =
        let texts : items s (key c queue) ≡ [] = r.waits ∙ ap pushed empty in
        let popped : (rpop s (key c queue)).0 ≡ none =
          R.rpop_value s (key c queue) ∙ rw texts refl in
        (
          (rpop s (key c queue)).1,
          R.rpoplpush_lem s (key c queue) (processing_key c queue consumer) ∙ rw popped refl,
          record {
            waits =
                R.items-rpop s (key c queue) (key c queue)
                ∙ rw (eq_refl (key c queue), texts) (sym (ap pushed empty));
            holds =
                R.items-rpop s (key c queue) (processing_key c queue consumer)
                ∙ rw (key-ne-processing c queue consumer queue) r.holds;
            gave_up =
                R.items-rpop s (key c queue) (dead_key c queue)
                ∙ rw (key-ne-dead c queue queue) r.gave_up;
          },
        )
