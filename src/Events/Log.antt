-- ===== src/Events/Log.antt =====
-- src/sastt/domain/events.py: `ServerEvent` and the append-only `SessionEventLog` with replay. The
-- payload is opaque to the log, so the model is generic in it.
pub mod Sequence
pub mod Replay
pub mod Finals
use speaker_attributed_stt.Prelude.{
  ℕ, ◌+◌, ◌-◌, ◌<◌, ◌≡◌, String, Bool, true, false, not, ◌&&◌, ◌||◌, Option, none, some, List, [],
  ◌∷◌, ◌++◌, ltb, leb, ◌==◌, str_eq, if◌then◌else◌, length, drop, filter, any,
}
use speaker_attributed_stt.Prelude.Dict.{Dict, put, empty}
use speaker_attributed_stt.Errors.{Result, ok, err, value_error, raise_if, ◌>>=◌, ◌>>◌}

pub data EventType : Type 0 where
  session_started transcript_provisional transcript_revision transcript_final : EventType
  pipeline_warning session_finalized session_failed : EventType

pub record ServerEvent (P : Type 0) : Type 0 where
  pub event_id : String
  pub session_id : String
  pub sequence_number : ℕ
  pub event_type : EventType
  pub server_time_ms : ℕ
  pub revision : ℕ
  pub supersedes_event_id : Option String
  pub is_final : Bool
  pub payload : P
  pub model_versions : List (String × Option String)
  pub config_version : Option String
  pub dedup_key : Option String

pub record SessionEventLog (P : Type 0) : Type 0 where
  pub session_id : String
  pub retention : ℕ
  pub events : List (ServerEvent P)
  pub sequence : ℕ
  pub keys : List (String × ℕ)
  pub final_by_dedup_key : Dict (ServerEvent P)

-- The keyword arguments of `append`.
pub record Append (P : Type 0) : Type 0 where
  pub event_type : EventType
  pub revision : ℕ
  pub supersedes_event_id : Option String
  pub is_final : Bool
  pub payload : P
  pub model_versions : List (String × Option String)
  pub config_version : Option String
  pub dedup_key : Option String
  pub event_id : Option String

-- `event_id or new_id("evt", now_ms)`: an empty id counts as none.
abbrev pub id_or_new : Option String → String → String
id_or_new none fresh = fresh
id_or_new (some id) fresh = if str_eq id "" then fresh else id

-- `(event_id, revision) in self._keys`
unfoldable pub has_key : List (String × ℕ) → String → ℕ → Bool
has_key [] id revision = false
has_key ((i, r) ∷ keys) id revision = str_eq i id && r == revision || has_key keys id revision

module _ {P : Type 0} where
  -- `__init__`
  abbrev pub make_log : String → ℕ → SessionEventLog P
  make_log session_id retention = record {
    session_id = session_id;
    retention = retention;
    events = [];
    sequence = 0;
    keys = [];
    final_by_dedup_key = empty;
  }

  -- The final event already kept under the dedup key, if the new one is final and has a key.
  unfoldable pub existing_final : SessionEventLog P → Bool → Option String → Option (ServerEvent P)
  existing_final log true (some key) = log.final_by_dedup_key key
  existing_final log true none = none
  existing_final log false key = none

  unfoldable pub new_event : SessionEventLog P → Append P → ℕ → String → ServerEvent P
  new_event log a now_ms fresh_id = record {
    event_id = id_or_new a.event_id fresh_id;
    session_id = log.session_id;
    sequence_number = log.sequence + 1;
    event_type = a.event_type;
    server_time_ms = now_ms;
    revision = a.revision;
    supersedes_event_id = a.supersedes_event_id;
    is_final = a.is_final;
    payload = a.payload;
    model_versions = a.model_versions;
    config_version = a.config_version;
    dedup_key = a.dedup_key;
  }

  unfoldable pub remember_final :
      Dict (ServerEvent P) → Bool → Option String → ServerEvent P → Dict (ServerEvent P)
  unfolding put
  remember_final d true (some key) e = put d key e
  remember_final d true none e = d
  remember_final d false key e = d

  -- `events[-retention:]` if there are too many. The slice from `-0` is the whole list.
  unfoldable pub retain : ℕ → List (ServerEvent P) → List (ServerEvent P)
  retain retention events =
      if ltb retention (length events) && not (retention == 0)
      then drop (length events - retention) events
      else events

  -- The log after an event that was not a duplicate.
  unfoldable pub with_event : SessionEventLog P → ServerEvent P → SessionEventLog P
  unfolding retain remember_final
  with_event log e = record {
    session_id = log.session_id;
    retention = log.retention;
    events = retain log.retention (log.events ++ e ∷ []);
    sequence = e.sequence_number;
    keys = (e.event_id, e.revision) ∷ log.keys;
    final_by_dedup_key = remember_final log.final_by_dedup_key e.is_final e.dedup_key e;
  }

  append_new :
      SessionEventLog P → Append P → ℕ → String → Result (ServerEvent P × SessionEventLog P)
  append_new log a now_ms fresh_id = do
    raise_if (ltb a.revision 1) value_error
    let e : ServerEvent P = new_event log a now_ms fresh_id
    raise_if (has_key log.keys e.event_id e.revision) value_error
    ok (e, with_event log e)

  -- `now_ms` is the clock's answer and `fresh_id` the answer of `new_id`. Nothing is changed before
  -- an exception, so an error leaves the log as it was.
  unfoldable pub append :
      SessionEventLog P → Append P → ℕ → String → Result (ServerEvent P × SessionEventLog P)
  unfolding append_new
  append log a now_ms fresh_id = elim (existing_final log a.is_final a.dedup_key) [
    | some e ↦ ok (e, log)
    | none ↦ append_new log a now_ms fresh_id
  ]

  -- `self._events and last < self._events[0].sequence_number - 1`, with a first number of at least 1.
  unfoldable pub out_of_window : List (ServerEvent P) → ℕ → Bool
  out_of_window [] last = false
  out_of_window (e ∷ es) last = ltb last (e.sequence_number - 1)

  unfoldable pub replay_from : SessionEventLog P → ℕ → Result (List (ServerEvent P))
  unfolding out_of_window
  replay_from log last_sequence_number = do
    raise_if (ltb log.sequence last_sequence_number) value_error
    raise_if (out_of_window log.events last_sequence_number) value_error
    ok (filter (λ e. ltb last_sequence_number e.sequence_number) log.events)

  unfoldable pub final_events : SessionEventLog P → List (ServerEvent P)
  final_events log = filter (λ e. e.is_final) log.events
