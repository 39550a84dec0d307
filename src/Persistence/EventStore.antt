-- ===== src/Persistence/EventStore.antt =====
-- src/sastt/adapters/persistence/memory.py: `InMemoryEventStore`, with a bounded replay window.
pub mod Monotone
use speaker_attributed_stt.Prelude.{
  ℕ, ◌+◌, ◌-◌, String, Bool, true, false, ◌&&◌, ◌||◌, Option, none, some, List, [], ◌∷◌, ◌++◌, ltb,
  leb, ◌==◌, str_eq, if◌then◌else◌, length, drop, filter, last?,
}
use speaker_attributed_stt.Prelude.Dict.{Dict, put, empty}
use speaker_attributed_stt.Errors.{Result, ok, err, sastt_error, raise_if, ◌>>=◌, ◌>>◌}
use speaker_attributed_stt.Events.Log.{ServerEvent, out_of_window}

pub record EventStore (P : Type 0) : Type 0 where
  pub retention : ℕ
  -- `_events`, by session.
  pub events : Dict (List (ServerEvent P))
  pub keys : List (String × String × ℕ)

unfoldable pub has_event_key : List (String × String × ℕ) → String → String → ℕ → Bool
has_event_key [] session id revision = false
has_event_key ((s, i, r) ∷ keys) session id revision =
    str_eq s session && str_eq i id && r == revision || has_event_key keys session id revision

module _ {P : Type 0} where
  abbrev pub make_store : ℕ → EventStore P
  make_store retention = record { retention = retention; events = empty; keys = [] }

  abbrev or_empty : Option (List (ServerEvent P)) → List (ServerEvent P)
  or_empty none = []
  or_empty (some es) = es

  -- `_events.get(session, [])`, and what `setdefault` finds.
  abbrev pub events_of : EventStore P → String → List (ServerEvent P)
  events_of s session = or_empty (s.events session)

  -- `events and event.sequence_number <= events[-1].sequence_number`
  not_after : Option (ServerEvent P) → ServerEvent P → Bool
  not_after none e = false
  not_after (some last) e = leb e.sequence_number last.sequence_number

  -- `del events[: len(events) - retention]` if there are too many.
  unfoldable pub trimmed : ℕ → List (ServerEvent P) → List (ServerEvent P)
  trimmed retention es = if ltb retention (length es) then drop (length es - retention) es else es

  unfoldable pub append : EventStore P → ServerEvent P → Result (ServerEvent P × EventStore P)
  unfolding not_after has_event_key trimmed
  append s e = do
    let events : List (ServerEvent P) = events_of s e.session_id
    raise_if (not_after (last? events) e) sastt_error
    raise_if (has_event_key s.keys e.session_id e.event_id e.revision) sastt_error
    ok (
      e,
      record s {
        events = put s.events e.session_id (trimmed s.retention (events ++ e ∷ []));
        keys = (e.session_id, e.event_id, e.revision) ∷ s.keys;
      },
    )

  unfoldable pub replay : EventStore P → String → ℕ → Result (List (ServerEvent P))
  unfolding out_of_window
  replay s session_id last = do
    let events : List (ServerEvent P) = events_of s session_id
    raise_if (out_of_window events last) sastt_error
    ok (filter (λ e. ltb last e.sequence_number) events)

  number_of : Option (ServerEvent P) → ℕ
  number_of none = 0
  number_of (some e) = e.sequence_number

  unfoldable pub last_sequence_number : EventStore P → String → ℕ
  unfolding number_of
  last_sequence_number s session_id = number_of (last? (events_of s session_id))
