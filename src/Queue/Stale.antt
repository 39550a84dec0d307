-- ===== src/Queue/Stale.antt =====
-- src/sastt/adapters/queue/redis_queue.py: what `requeue_stale` gives back to a queue.
use speaker_attributed_stt.Prelude.{
  ℕ, suc, ◌+◌, String, true, false, ◌≡◌, refl, sym, ap, subst, ◌∙◌, none, some, List, [], ◌∷◌, ◌++◌,
  append_assoc, ltb, length, last?-append, eq_refl, Bool-cases, inl, inr, arith,
}
use speaker_attributed_stt.Errors.{ok}
use speaker_attributed_stt.Queue.Json.{json_eq}
use speaker_attributed_stt.Queue.Task.{Task, Builtins, to_json, from_json-to_json, age_ms}
use speaker_attributed_stt.Queue.Redis.{Redis, init-append}
use speaker_attributed_stt.Queue.Tasks.{
  RedisTaskQueue, key, processing_key, requeue_from, requeue_stale,
}
use speaker_attributed_stt.Queue.Keys.{key-ne-processing, processing-ne-key}
use speaker_attributed_stt.Queue.Represents.{pushed, pushed-snoc, length-pushed}

module _ (R : Redis json_eq) (py : Builtins) (c : RedisTaskQueue) (queue consumer : String)
    (clock : ℕ → ℕ) where
  open R use {Store, items, lpush, rpop}

  -- Each task was out of its lease in its round.
  abbrev pub AreExpired : ℕ → List Task → Type 0
  AreExpired round [] = Unit
  AreExpired round (t ∷ ts) =
      (ltb (age_ms t (clock round)) c.visibility_timeout_ms ≡ false) × AreExpired (suc round) ts

  -- The oldest task, if there is one, is within its lease in the round.
  abbrev pub IsLeased : ℕ → List Task → Type 0
  IsLeased round [] = Unit
  IsLeased round (t ∷ ts) = ltb (age_ms t (clock round)) c.visibility_timeout_ms ≡ true

  -- The oldest task behind the others.
  abbrev pub rotated : List Task → List Task
  rotated [] = []
  rotated (t ∷ ts) = ts ++ t ∷ []

  module _ (s : Store) (t : Task) (ts : List Task)
      (texts : items s (processing_key c queue consumer) ≡ pushed (t ∷ ts)) where
    popped : (rpop s (processing_key c queue consumer)).0 ≡ some (to_json t)
    unfolding pushed
    popped =
        R.rpop_value s (processing_key c queue consumer)
        ∙ rw texts (last?-append (pushed ts) (to_json t))

    rest-processing :
        items (rpop s (processing_key c queue consumer)).1 (processing_key c queue consumer)
        ≡ pushed ts
    unfolding pushed
    rest-processing =
        R.items-rpop s (processing_key c queue consumer) (processing_key c queue consumer)
        ∙ rw (eq_refl (processing_key c queue consumer), texts)
            (init-append (pushed ts) (to_json t))

    rest-queue :
        items (rpop s (processing_key c queue consumer)).1 (key c queue) ≡ items s (key c queue)
    rest-queue =
        R.items-rpop s (processing_key c queue consumer) (key c queue)
        ∙ rw (processing-ne-key c queue consumer queue) refl

    -- The store after the task went back to the processing list, and after it went to the queue.
    abbrev put_back : Store
    put_back =
        lpush (rpop s (processing_key c queue consumer)).1 (processing_key c queue consumer)
          (to_json t)

    abbrev given_up : Store
    given_up = lpush (rpop s (processing_key c queue consumer)).1 (key c queue) (to_json t)

    put_back-queue : items put_back (key c queue) ≡ items s (key c queue)
    put_back-queue =
        R.items-lpush _ _ _ (key c queue) ∙ rw (processing-ne-key c queue consumer queue) rest-queue

    put_back-processing : items put_back (processing_key c queue consumer) ≡ pushed (ts ++ t ∷ [])
    put_back-processing =
        R.items-lpush _ _ _ (processing_key c queue consumer)
        ∙ rw (eq_refl (processing_key c queue consumer))
            (ap (λ l. to_json t ∷ l) rest-processing ∙ sym (pushed-snoc ts t))

    given_up-queue : items given_up (key c queue) ≡ to_json t ∷ items s (key c queue)
    given_up-queue =
        R.items-lpush _ _ _ (key c queue)
        ∙ rw (eq_refl (key c queue)) (ap (λ l. to_json t ∷ l) rest-queue)

    given_up-processing : items given_up (processing_key c queue consumer) ≡ pushed ts
    given_up-processing =
        R.items-lpush _ _ _ (processing_key c queue consumer)
        ∙ rw (key-ne-processing c queue consumer queue) rest-processing

    step-leased :
        (rounds round : ℕ)
        → ltb (age_ms t (clock round)) c.visibility_timeout_ms ≡ true
        → requeue_from R py c (suc rounds) queue consumer clock round s ≡ (ok round, put_back)
    unfolding requeue_from
    step-leased rounds round leased = ground (arith, popped, from_json-to_json py t)

    step-expired :
        (rounds round : ℕ)
        → ltb (age_ms t (clock round)) c.visibility_timeout_ms ≡ false
        → requeue_from R py c (suc rounds) queue consumer clock round s
          ≡ requeue_from R py c rounds queue consumer clock (suc round) given_up
    unfolding requeue_from
    step-expired rounds round expired = ground (arith, popped, from_json-to_json py t)

  -- What a run of the loop does to lists that hold these tasks, the oldest first.
  abbrev Outcome : ℕ → ℕ → List Task → Store → Type 0
  Outcome rounds round ts s =
      (gone : List Task) × (left : List Task) × (s' : Store) × (ts ≡ gone ++ left)
      × AreExpired round gone
      × IsLeased (round + length gone) left
      × (requeue_from R py c rounds queue consumer clock round s ≡ (ok (round + length gone), s'))
      × (items s' (key c queue) ≡ pushed gone ++ items s (key c queue))
      × (items s' (processing_key c queue consumer) ≡ pushed (rotated left))

  stop-nil :
      (round : ℕ) (s : Store)
      → items s (processing_key c queue consumer) ≡ []
      → Outcome 1 round [] s
  unfolding requeue_from pushed
  stop-nil round s texts =
      let none_left : (rpop s (processing_key c queue consumer)).0 ≡ none =
        R.rpop_value s (processing_key c queue consumer) ∙ rw texts refl in
      (
        [],
        [],
        (rpop s (processing_key c queue consumer)).1,
        refl,
        tt,
        tt,
        ground arith,
        R.items-rpop s (processing_key c queue consumer) (key c queue)
            ∙ rw (processing-ne-key c queue consumer queue) refl,
        R.items-rpop s (processing_key c queue consumer) (processing_key c queue consumer)
            ∙ rw (eq_refl (processing_key c queue consumer), texts) refl,
      )

  stop-leased :
      (t : Task) (ts : List Task) (rounds round : ℕ) (s : Store)
      → items s (processing_key c queue consumer) ≡ pushed (t ∷ ts)
      → ltb (age_ms t (clock round)) c.visibility_timeout_ms ≡ true
      → Outcome (suc rounds) round (t ∷ ts) s
  unfolding pushed
  stop-leased t ts rounds round s texts leased =
      let e : round ≡ round + 0 = omega arith in
      (
        [],
        t ∷ ts,
        put_back s t ts texts,
        refl,
        tt,
        subst (λ n. ltb (age_ms t (clock n)) c.visibility_timeout_ms ≡ true) e leased,
        step-leased s t ts texts rounds round leased ∙ ap (λ n. (ok n, put_back s t ts texts)) e,
        put_back-queue s t ts texts,
        put_back-processing s t ts texts,
      )

  go-expired :
      (t : Task) (ts : List Task) (rounds round : ℕ) (s : Store)
      → (texts : items s (processing_key c queue consumer) ≡ pushed (t ∷ ts))
      → ltb (age_ms t (clock round)) c.visibility_timeout_ms ≡ false
      → Outcome rounds (suc round) ts (given_up s t ts texts)
      → Outcome (suc rounds) round (t ∷ ts) s
  unfolding pushed
  go-expired t ts rounds round s texts expired (gone, left, s', split, old, leased, run, k, p) =
      let e : suc round + length gone ≡ round + suc (length gone) = omega arith in
      (
        t ∷ gone,
        left,
        s',
        ap (λ l. t ∷ l) split,
        (expired, old),
        subst (λ n. IsLeased n left) e leased,
        step-expired s t ts texts rounds round expired ∙ run ∙ ap (λ n. (ok n, s')) e,
        k
            ∙ ap (λ l. pushed gone ++ l) (given_up-queue s t ts texts)
            ∙ sym (append_assoc (pushed gone) (to_json t ∷ []) (items s (key c queue))),
        p,
      )

  requeue_from_lem :
      (ts : List Task) (round : ℕ) (s : Store)
      → items s (processing_key c queue consumer) ≡ pushed ts
      → Outcome (suc (length ts)) round ts s
  unfolding pushed
  requeue_from_lem [] round s texts = stop-nil round s texts
  requeue_from_lem (t ∷ ts) round s texts =
      elim (Bool-cases (ltb (age_ms t (clock round)) c.visibility_timeout_ms)) [
        | inl leased ↦ stop-leased t ts (suc (length ts)) round s texts leased
        | inr expired ↦ go-expired t ts (suc (length ts)) round s texts expired (
            requeue_from_lem ts (suc round) (given_up s t ts texts)
              (given_up-processing s t ts texts))
      ]

  -- On a processing list of tasks `requeue_stale` always returns. The tasks it moved are the oldest
  -- ones up to the first that is within its lease: each of them was older than the timeout, they
  -- stand at the queue's new end in the order in which they were, and their number is returned.
  -- The others stay on the processing list, of which the oldest has become the newest.
  pub requeue_stale_lem :
      (ts : List Task) (s : Store)
      → items s (processing_key c queue consumer) ≡ pushed ts
      → (gone : List Task) × (left : List Task) × (s' : Store) × (ts ≡ gone ++ left)
        × AreExpired 0 gone
        × IsLeased (length gone) left
        × (requeue_stale R py c queue consumer clock s ≡ (ok (length gone), s'))
        × (items s' (key c queue) ≡ pushed gone ++ items s (key c queue))
        × (items s' (processing_key c queue consumer) ≡ pushed (rotated left))
  unfolding requeue_stale
  requeue_stale_lem ts s texts =
      let (gone, left, s', split, old, leased, run, k, p) = requeue_from_lem ts 0 s texts in
      let e : 0 + length gone ≡ length gone = omega arith in
      (
        gone,
        left,
        s',
        split,
        old,
        subst (λ n. IsLeased n left) e leased,
        rw (texts, length-pushed ts) (run ∙ ap (λ n. (ok n, s')) e),
        k,
        p,
      )
