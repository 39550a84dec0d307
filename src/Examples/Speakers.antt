-- ===== src/Examples/Speakers.antt =====
-- Speakers that are created, learn from an embedding, and are named and doubted.
use speaker_attributed_stt.Prelude.Text.{decimal}
use speaker_attributed_stt.Session.Creating.Sink.{sink_takes_a_place}
use speaker_attributed_stt.Session.Evidence.Rollback.{update_prototype-rollback}
use speaker_attributed_stt.Identity.{transition, make_machine, IdentityState, moved}
use speaker_attributed_stt.Prelude.Dict.{empty, put, has}
use speaker_attributed_stt.Errors.{invalid_state_transition_error, err, ok, Result}
use speaker_attributed_stt.Session.Creating.Roster.{create_session_speaker-IsRoster, IsRoster}
use speaker_attributed_stt.Session.{
  active_in, active, SessionSpeaker, active_speaker_count, Session, get,
}
use speaker_attributed_stt.Session.Creating.{
  new_speaker, registered, create_session_speaker, unattributed_speaker, create_temporary_speaker,
}
use speaker_attributed_stt.Session.Evidence.{
  rollback_prototype, is_separated, update_prototype, PrototypeUpdate,
}
use speaker_attributed_stt.Session.Evidence.Gates.{
  update_prototype_separated, IsUnaccepted, IsPastGates,
}
use speaker_attributed_stt.Embedding.{
  updated_with, separated, Linear, SpeakerPrototype, SpeakerEmbedding,
}
use speaker_attributed_stt.Prelude.{
  ◌⊎◌, ◌==◌, ◌≤◌, ◌∷◌, arith, ◌+◌, ◌*◌, [], ltb, ◌++◌, false, true, ℕ, ◌≡◌, refl, some, none,
}
use speaker_attributed_stt.Examples.Merging.{room_for_five, anonymous_machine}

-- An empty session with room for one speaker.
abbrev pub fresh : Session ℕ ℕ
fresh = record {
  config = record room_for_five { max_session_speakers = 1 };
  embedding_model_version = "m";
  speakers = empty;
  order = [];
  pending_label_changes = [];
  temporary_counter = 0;
  label_counter = 0;
  unattributed_id = none;
}

fresh-IsRoster : IsRoster fresh
unfolding active_speaker_count active active_in
fresh-IsRoster = record { registered_ids = tt; no_duplicates = tt; within = omega arith }

abbrev first_speaker : SessionSpeaker ℕ ℕ
first_speaker = new_speaker "sess_spk_1" anonymous_machine "Speaker 1" none

abbrev pub with_first : Session ℕ ℕ
with_first = registered (record fresh { label_counter = 1 }) first_speaker

creates : create_session_speaker none none "1" fresh ≡ (ok first_speaker, with_first)
unfolding create_session_speaker active_speaker_count make_machine decimal
creates = refl

create_session_speaker-IsRoster_example :
    IsRoster with_first
    × (has fresh.speakers "sess_spk_1" ≡ false)
    × (with_first.order ≡ fresh.order ++ "sess_spk_1" ∷ [])
    × (active_speaker_count with_first ≤ with_first.config.max_session_speakers)
create_session_speaker-IsRoster_example =
    create_session_speaker-IsRoster fresh with_first none none "1" first_speaker fresh-IsRoster
      creates

abbrev sink : SessionSpeaker ℕ ℕ
sink =
    new_speaker "sess_spk_9"
      (moved (record { state = IdentityState.provisional; history = [] }) IdentityState.unknown
        "insufficient_evidence")
      "Unknown" none

abbrev with_sink_only : Session ℕ ℕ
with_sink_only = record (registered fresh sink) { unattributed_id = some "sess_spk_9" }

sinks : unattributed_speaker "9" fresh ≡ (ok sink, with_sink_only)
unfolding unattributed_speaker make_machine transition
sinks = refl

sink_takes_a_place_example :
    create_temporary_speaker "2" with_sink_only
    ≡ (err invalid_state_transition_error, with_sink_only)
unfolding active_speaker_count
sink_takes_a_place_example =
    sink_takes_a_place fresh with_sink_only "9" "2" sink fresh-IsRoster refl refl sinks

-- Vectors and scores are numbers, and every vector counts as long as it needs to be.
abbrev pub numbers : Linear ℕ ℕ
numbers = record {
  norm = λ v. v;
  dot = λ v w. v * w;
  scale = λ v f. v * f;
  divide = λ v f. v;
  plus = λ v w. v + w;
  add = λ f g. f + g;
  is_zero = λ f. f == 0;
  lt = ltb;
}

abbrev pub old_prototype : SpeakerPrototype ℕ ℕ
old_prototype = record {
  speaker_key = "dan";
  centroid = 3;
  weight_sum = 1;
  model_version = "m";
  version = 1;
  contributing_segments = [];
}

abbrev dan : SessionSpeaker ℕ ℕ
dan = record (new_speaker "dan" anonymous_machine "Speaker 1" none) {
  prototype = some old_prototype;
}

abbrev with_dan : Session ℕ ℕ
with_dan = record fresh { speakers = put empty "dan" dan; order = "dan" ∷ [] }

abbrev pub heard : SpeakerEmbedding ℕ ℕ
heard = record {
  vector = 2;
  model_version = "m";
  quality = 1;
  speech_duration_ms = 1500;
  origin = separated;
  interval = none;
}

abbrev learnt : Result PrototypeUpdate × Session ℕ ℕ
learnt = update_prototype numbers "dan" heard (some 3) true with_dan

abbrev learnt_update : PrototypeUpdate
learnt_update = record {
  accepted = true;
  reason = "updated";
  speaker_id = some "dan";
  version = some 2;
}

learns : update_prototype numbers "dan" heard (some 3) true with_dan ≡ (ok learnt_update, learnt.1)
unfolding update_prototype get put updated_with
learns = refl

finds_dan : get with_dan "dan" ≡ ok dan
unfolding get put
finds_dan = refl

update_prototype-rollback_example :
    (after : SessionSpeaker ℕ ℕ) × (learnt.1.speakers "dan" ≡ some after)
    × (learnt_update.version ≡ some 2)
    × (rollback_prototype after ≡ dan)
update_prototype-rollback_example =
    update_prototype-rollback numbers with_dan learnt.1 "dan" heard (some 3) true learnt_update dan
      old_prototype finds_dan refl learns refl

update_prototype_separated_example :
    ((learnt.1 ≡ with_dan) × IsUnaccepted numbers learnt.0)
    ⊎ IsPastGates numbers with_dan.config (some 3) true
unfolding is_separated
update_prototype_separated_example =
    update_prototype_separated numbers with_dan learnt.1 "dan" heard (some 3) true learnt.0 refl
      refl
