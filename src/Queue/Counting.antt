-- ===== src/Queue/Counting.antt =====
-- How often a task is in the queue of redis_queue.py, and what each request does to that number.
use speaker_attributed_stt.Prelude.{
  ℕ, ◌+◌, ◌≤◌, String, Bool, true, ◌≡◌, refl, ap, List, [], ◌∷◌, ◌++◌, if◌then◌else◌, any, leb,
  length, str_eq, eq_iff, arith, Bool-cases, inl, inr,
}
use speaker_attributed_stt.Queue.Task.{Task, task_eq}
use speaker_attributed_stt.Queue.Redis.{remove_first}
use speaker_attributed_stt.Queue.Tasks.{tried}
use speaker_attributed_stt.Queue.Broker.{
  Broker, Op, submit, take, finish, give_back, Reply, taken, finished, given_back, serve,
  submit_task, take_from, refused, accepted,
}

module _ (id : String) where
  abbrev pub one_if : Bool → ℕ
  one_if b = if b then 1 else 0

  unfoldable pub copies : List Task → ℕ
  copies [] = 0
  copies (t ∷ ts) = one_if (str_eq t.task_id id) + copies ts

  -- How often a task with the id waits, is held or was given up.
  abbrev pub entries : Broker → ℕ
  entries b = copies b.waiting + copies b.held + copies b.dead

  -- How many replies say that a task with the id was accepted.
  unfoldable pub accepted_count : List Reply → ℕ
  accepted_count [] = 0
  accepted_count (accepted t ∷ rs) = one_if (str_eq t.task_id id) + accepted_count rs
  accepted_count (refused e ∷ rs) = accepted_count rs
  accepted_count (taken o ∷ rs) = accepted_count rs
  accepted_count (finished b ∷ rs) = accepted_count rs
  accepted_count (given_back b ∷ rs) = accepted_count rs

  unfoldable pub acknowledges : Op → Reply → ℕ
  acknowledges (finish t) (finished true) = one_if (str_eq t.task_id id)
  acknowledges _ _ = 0

  -- How many acknowledgements of a task with the id found the task.
  unfoldable pub acknowledged_count : List Op → List Reply → ℕ
  unfolding acknowledges
  acknowledged_count (op ∷ ops) (r ∷ rs) = acknowledges op r + acknowledged_count ops rs
  acknowledged_count _ _ = 0

  pub copies-append : (ts us : List Task) → copies (ts ++ us) ≡ copies ts + copies us
  unfolding copies
  copies-append [] us = omega arith
  copies-append (t ∷ ts) us = omega (arith, copies-append ts us)

  same_id : (t u : Task) → task_eq t u ≡ true → str_eq u.task_id id ≡ str_eq t.task_id id
  unfolding task_eq
  same_id t u h = ground (arith, eq_iff t.task_id u.task_id)

  -- Taking out a task that is there takes out one of its id.
  copies-remove_first :
      (t : Task) (ts : List Task)
      → copies (remove_first (task_eq t) ts)
          + (if any (task_eq t) ts then one_if (str_eq t.task_id id) else 0)
        ≡ copies ts
  unfolding copies
  copies-remove_first t [] = omega arith
  copies-remove_first t (u ∷ ts) = ground (arith, copies-remove_first t ts, same_id t u)

  module _ (max_depth : ℕ) (queue : String) (b : Broker) where
    -- A request and its answer lose nothing that was not acknowledged.
    unfoldable pub Keeps : Op → Reply × Broker → Type 0
    Keeps op answer =
        entries b + accepted_count (answer.0 ∷ []) ≤ entries answer.1 + acknowledges op answer.0

    submit-Keeps : (op : Op) (t : Task) → Keeps op (submit_task max_depth queue t b)
    unfolding Keeps submit_task accepted_count copies acknowledges
    submit-Keeps op t = elim (Bool-cases (leb max_depth (length b.waiting))) [
      | inl full ↦ rw full (omega arith)
      | inr room ↦ rw room (omega (arith, copies-append b.waiting (t ∷ [])))
    ]

    take-Keeps : (op : Op) (ts : List Task) → b.waiting ≡ ts → Keeps op (take_from ts b)
    unfolding Keeps take_from accepted_count copies acknowledges
    take-Keeps op [] e = omega arith
    take-Keeps op (t ∷ ts) e =
        let same : copies b.waiting ≡ one_if (str_eq t.task_id id) + copies ts = ap copies e in
        omega (arith, same)

    pub serve-Keeps : (op : Op) → Keeps op (serve max_depth queue b op)
    unfolding Keeps serve accepted_count acknowledges copies
    serve-Keeps (submit tenant_id job_id payload now_ms task_id) =
        submit-Keeps (submit tenant_id job_id payload now_ms task_id) _
    serve-Keeps take = take-Keeps take b.waiting refl
    serve-Keeps (finish t) = ground (arith, copies-remove_first t b.held)
    serve-Keeps (give_back t max_attempts) =
        ground (arith, copies-remove_first t b.held, copies-append b.waiting (tried t ∷ []))

  pub accepted-cons :
      (r : Reply) (rs : List Reply)
      → accepted_count (r ∷ rs) ≡ accepted_count (r ∷ []) + accepted_count rs
  unfolding accepted_count
  accepted-cons (accepted t) rs = omega arith
  accepted-cons (refused e) rs = omega arith
  accepted-cons (taken o) rs = omega arith
  accepted-cons (finished b) rs = omega arith
  accepted-cons (given_back b) rs = omega arith
