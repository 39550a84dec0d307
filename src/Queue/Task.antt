-- ===== src/Queue/Task.antt =====
-- src/sastt/adapters/queue/redis_queue.py: `Task` and its JSON form.
use speaker_attributed_stt.Prelude.{
  ℕ, ◌-◌, String, Bool, true, false, ◌&&◌, ◌≡◌, refl, sym, ◌∙◌, ap, Option, none, some, str_eq,
  ◌==◌, if◌then◌else◌,
}
use speaker_attributed_stt.Prelude.Text.{decimal}
use speaker_attributed_stt.Errors.{Result, ok, err, value_error, type_error, key_error, ◌>>=◌}
use speaker_attributed_stt.Queue.Json.{
  Json, Fields, null, boolean, number, text, object, end, field, json_eq, fields_eq, json_eq_refl,
}

pub record Task : Type 0 where
  pub task_id : String
  pub queue : String
  pub tenant_id : String
  pub job_id : String
  pub payload : Fields
  pub enqueued_ms : ℕ
  pub attempts : ℕ

unfoldable pub to_json : Task → Json
to_json t = object (
    field "task_id" (text t.task_id) (
      field "queue" (text t.queue) (
        field "tenant_id" (text t.tenant_id) (
          field "job_id" (text t.job_id) (
            field "payload" (object t.payload) (
              field "enqueued_ms" (number t.enqueued_ms)
                (field "attempts" (number t.attempts) end)))))))

-- The key that `json.loads` keeps is the last one of that name; `dumps` writes each key once.
unfoldable pub lookup : String → Fields → Option Json
lookup k end = none
lookup k (field j v fs) =
    let rest = lookup k fs in
    elim rest [ some w ↦ some w | none ↦ if str_eq j k then some v else none ]

-- What Python's `str` makes of a dict, and `int` of a text.
pub record Builtins : Type 0 where
  pub repr : Fields → String
  pub int_of_text : String → Result ℕ

-- `data[k]`
at_key : Option Json → Result Json
at_key none = err key_error
at_key (some v) = ok v

-- `data.get(k, default)`
or_default : Json → Option Json → Json
or_default d none = d
or_default d (some v) = v

-- `dict(v)`
to_dict : Json → Result Fields
to_dict (object fs) = ok fs
to_dict (text s) = if str_eq s "" then ok end else err value_error
to_dict _ = err type_error

module _ (py : Builtins) where
  -- `str(v)`
  to_str : Json → String
  to_str null = "None"
  to_str (boolean true) = "True"
  to_str (boolean false) = "False"
  to_str (number n) = decimal n
  to_str (text s) = s
  to_str (object fs) = py.repr fs

  -- `int(v)`
  to_int : Json → Result ℕ
  to_int (boolean true) = ok 1
  to_int (boolean false) = ok 0
  to_int (number n) = ok n
  to_int (text s) = py.int_of_text s
  to_int _ = err type_error

  -- `data["task_id"]` of a text that does not hold an object is a type error.
  unfoldable pub from_json : Json → Result Task
  unfolding lookup at_key or_default to_dict to_str to_int
  from_json (object fs) = do
    task_id ← at_key (lookup "task_id" fs)
    queue ← at_key (lookup "queue" fs)
    tenant_id ← at_key (lookup "tenant_id" fs)
    job_id ← at_key (lookup "job_id" fs)
    payload ← to_dict (or_default (object end) (lookup "payload" fs))
    enqueued_ms ← to_int (or_default (number 0) (lookup "enqueued_ms" fs))
    attempts ← to_int (or_default (number 0) (lookup "attempts" fs))
    ok (record {
      task_id = to_str task_id;
      queue = to_str queue;
      tenant_id = to_str tenant_id;
      job_id = to_str job_id;
      payload = payload;
      enqueued_ms = enqueued_ms;
      attempts = attempts;
    })
  from_json _ = err type_error

  -- A task survives the way through its text.
  pub from_json-to_json : (t : Task) → from_json (to_json t) ≡ ok t
  unfolding from_json to_json
  from_json-to_json t = refl

-- `task.age_ms` at a time: never negative.
unfoldable pub age_ms : Task → ℕ → ℕ
age_ms t now_ms = now_ms - t.enqueued_ms

unfoldable pub task_eq : Task → Task → Bool
task_eq t u =
    str_eq t.task_id u.task_id
    && (str_eq t.queue u.queue
        && (str_eq t.tenant_id u.tenant_id
            && (str_eq t.job_id u.job_id
                && (fields_eq t.payload u.payload
                    && (t.enqueued_ms == u.enqueued_ms && t.attempts == u.attempts)))))

and_true : (b : Bool) → (b && true) ≡ b
and_true true = refl
and_true false = refl

-- Two tasks have the same text exactly when they have the same fields.
pub json_eq-to_json : (t u : Task) → json_eq (to_json t) (to_json u) ≡ task_eq t u
unfolding json_eq fields_eq to_json task_eq
json_eq-to_json t u =
    ap
      (λ b.
        str_eq t.task_id u.task_id
        && (str_eq t.queue u.queue
            && (str_eq t.tenant_id u.tenant_id
                && (str_eq t.job_id u.job_id
                    && (fields_eq t.payload u.payload && (t.enqueued_ms == u.enqueued_ms && b))))))
      (and_true (t.attempts == u.attempts))

pub task_eq_refl : (t : Task) → task_eq t t ≡ true
task_eq_refl t = sym (json_eq-to_json t t) ∙ json_eq_refl (to_json t)
