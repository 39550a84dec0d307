-- ===== src/Examples/Logs.antt =====
-- An event log, identifiers, jobs and the state machine of an identity.
use speaker_attributed_stt.Events.Log.Replay.{replay_from_complete}
use speaker_attributed_stt.Events.Log.Finals.{at_most_one_final, append_all, finals_for}
use speaker_attributed_stt.Errors.{ok}
use speaker_attributed_stt.Events.Log.Sequence.{
  Counts, make_log-IsNumbered, append-IsNumbered, IsNumbered,
}
use speaker_attributed_stt.Identity.History.{transition-IsAudited, IsAudited}
use speaker_attributed_stt.Identity.{
  revision, step_of, moved, IdentityState, session_anonymous, is_allowed, is_initial, Machine,
  transition,
}
use speaker_attributed_stt.Events.Log.{
  has_key, make_log, with_event, transcript_final, new_event, replay_from, existing_final,
  SessionEventLog, Append, ServerEvent, append,
}
use speaker_attributed_stt.Prelude.{
  arith, ◌+◌, ◌≤◌, true, ℕ, length, ◌≡◌, refl, ◌⊎◌, some, none, List, [], ◌∷◌,
}

abbrev call : Append ℕ
call = record {
  event_type = transcript_final;
  revision = 1;
  supersedes_event_id = none;
  is_final = true;
  payload = 7;
  model_versions = [];
  config_version = none;
  dedup_key = some "k";
  event_id = some "evt_1";
}

abbrev start : SessionEventLog ℕ
start = make_log "s" 2

abbrev first_event : ServerEvent ℕ
first_event = new_event start call 5 "evt_9"

abbrev one : SessionEventLog ℕ
one = with_event start first_event

appends : append start call 5 "evt_9" ≡ ok (first_event, one)
unfolding append existing_final has_key
appends = refl

at_most_one_final_example :
    length (finals_for "k" (append_all start ((call, 5, "evt_9") ∷ (call, 6, "evt_8") ∷ [])).events)
    ≤ 1
at_most_one_final_example =
    at_most_one_final "s" 2 ((call, 5, "evt_9") ∷ (call, 6, "evt_8") ∷ []) "k"

append-IsNumbered_example :
    IsNumbered one
    × (((existing_final start true (some "k") ≡ some first_event) × (one ≡ start))
        ⊎ ((first_event.sequence_number ≡ 1) × (one.sequence ≡ first_event.sequence_number)))
append-IsNumbered_example =
    append-IsNumbered start call 5 "evt_9" (make_log-IsNumbered "s" 2) appends

abbrev one_numbered : IsNumbered one
unfolding with_event new_event
one_numbered = record {
  before = 0;
  counts = (omega arith, omega arith);
  own = (refl, tt);
  bounded = λ _. omega arith;
}

replay_from_complete_example :
    (es : List (ServerEvent ℕ)) × (replay_from one 0 ≡ ok es)
    × (es ≡ first_event ∷ [])
    × Counts 0 es 1
unfolding one_numbered
replay_from_complete_example = replay_from_complete one one_numbered 0 (omega arith) (omega arith)

abbrev new_machine : Machine
new_machine = record { state = IdentityState.provisional; history = [] }

new_machine-IsAudited : IsAudited new_machine
unfolding is_initial
new_machine-IsAudited = record { initial = IdentityState.provisional; entry = refl; chain = refl }

abbrev promoted_machine : Machine
promoted_machine = moved new_machine session_anonymous "evidence"

moves :
    transition new_machine session_anonymous "evidence"
    ≡ ok (step_of new_machine session_anonymous "evidence", promoted_machine)
unfolding transition
moves = refl

transition-IsAudited_example :
    IsAudited promoted_machine
    × (is_allowed IdentityState.provisional session_anonymous ≡ true)
    × (session_anonymous ≡ session_anonymous)
    × ((step_of new_machine session_anonymous "evidence").revision ≡ revision promoted_machine)
    × (revision promoted_machine ≡ revision new_machine + 1)
transition-IsAudited_example =
    transition-IsAudited new_machine promoted_machine session_anonymous "evidence"
      (step_of new_machine session_anonymous "evidence") new_machine-IsAudited moves
