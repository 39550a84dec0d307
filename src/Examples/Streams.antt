-- ===== src/Examples/Streams.antt =====
-- A session over numbers for samples, whose stages hear one stretch of speech and no words.
use speaker_attributed_stt.Prelude.{
  ℕ, ◌≤◌, ◌≡◌, refl, String, true, false, Option, none, some, List, [], ◌∷◌, length, arith,
}
use speaker_attributed_stt.Prelude.Text.{decimal}
use speaker_attributed_stt.Errors.{Result, ok, err, session_clock_discontinuity_error}
use speaker_attributed_stt.Exec.{pure}
use speaker_attributed_stt.Audio.Time.{samples_to_ms, ms_to_samples}
use speaker_attributed_stt.Audio.Interval.{intersection_ms, make}
use speaker_attributed_stt.Events.Log.{
  ServerEvent, make_log, append, existing_final, has_key, final_events, new_event, remember_final,
  retain, with_event,
}
use speaker_attributed_stt.Events.Log.Sequence.{IsNumbered, make_log-IsNumbered}
use speaker_attributed_stt.Events.Log.Finals.{finals_for}
use speaker_attributed_stt.Transcript.{TranscriptSegment}
use speaker_attributed_stt.Streaming.{
  created, streaming, failed, finalized, Emitted, StreamConfig, Payload, Ports, Stream,
  final_dedup_key,
}
use speaker_attributed_stt.Streaming.Rolling.{
  frames, push_pcm, process, now_ms, stage, is_closed, emit_provisional, drain_label_revisions,
  emit,
}
use speaker_attributed_stt.Streaming.Superseding.{Wanted, superseded_event_id}
use speaker_attributed_stt.Streaming.Finishing.{
  prepare, finalize, final_pass, publish, emitted_by_id, end_session,
}
use speaker_attributed_stt.Prelude.Dict.{put}
use speaker_attributed_stt.Session.Resolution.{drain_label_changes}
use speaker_attributed_stt.Session
use speaker_attributed_stt.Streaming.Recording.{Records, push_pcm-Records}
use speaker_attributed_stt.Streaming.Ledger.{
  Call, starts, pushes, finalizes, fails, after_calls, after_calls-IsNumbered,
}
use speaker_attributed_stt.Streaming.Choosing.{Chosen, superseded_event_id-Chosen}
use speaker_attributed_stt.Streaming.Replacing.{replaced, Distinct, prepare-Distinct}
use speaker_attributed_stt.Streaming.Closing.{finalize-closes}
use speaker_attributed_stt.Examples.Speakers.{fresh, with_first}
use speaker_attributed_stt.Examples.Words.{segment}

-- What the final pass says.
abbrev said : TranscriptSegment ℕ
said = record segment { start_ms = 0; end_ms = 30; source_track = none; speaker_label = "Bob" }

abbrev stages : Ports ℕ ℕ ℕ ℕ ℕ
stages = record {
  sample = λ low high. low;
  clock = λ number. number;
  new_event_id = decimal;
  hear = λ chunk start. pure (record { start_ms = 0; end_ms = 1 } ∷ []);
  transcribe = λ chunk start force_close interval. pure [];
  fuse = λ groups. pure [];
  final_run = λ samples language. ok (record {
    segments = said ∷ [];
    warnings = "degraded" ∷ [];
    degraded = true;
    config_version = none;
    model_versions = [];
  });
}

-- One sample per millisecond, and room for four.
abbrev config : StreamConfig
config = record {
  sample_rate = 1000;
  frame_ms = 1;
  hop_ms = 2;
  window_ms = 3;
  ring_ms = 4;
  silence_ms = 1;
  max_session_speakers = 1;
  config_version = none;
  model_versions = [];
}

abbrev opened : Stream ℕ ℕ ℕ ℕ
opened = record {
  session_id = "s";
  config = config;
  state_machine = created;
  log = make_log "s" 100;
  speakers = fresh;
  pipeline = 0;
  samples = [];
  total_samples = 0;
  session_pcm = some [];
  emitted = [];
  emitted_until_ms = 0;
  last_process_ms = 0;
  is_finalized = false;
}

-- The ring is full.
abbrev running : Stream ℕ ℕ ℕ ℕ
running = record opened {
  state_machine = streaming;
  samples = 2 ∷ 3 ∷ 4 ∷ 5 ∷ [];
  total_samples = 5;
  session_pcm = some (1 ∷ 2 ∷ 3 ∷ 4 ∷ 5 ∷ []);
}

push_pcm-Records_example :
    Records stages 4
      (1 ∷ 2 ∷ 3 ∷ 4 ∷ 5 ∷ 6 ∷ 7 ∷ [])
      (push_pcm stages (6 ∷ 0 ∷ 7 ∷ 0 ∷ []) running).1
unfolding frames ms_to_samples
push_pcm-Records_example =
    push_pcm-Records stages 4 (1 ∷ 2 ∷ 3 ∷ 4 ∷ 5 ∷ []) running (6 ∷ 0 ∷ 7 ∷ 0 ∷ []) (omega arith)
      refl refl
      (record {
        sized = refl;
        counted = refl;
        recent = (1 ∷ [], refl);
        filled = refl;
        spooled = refl;
      })

abbrev calls : List Call
calls =
    starts ∷ pushes (6 ∷ 0 ∷ 7 ∷ 0 ∷ []) ∷ starts ∷ finalizes ∷ finalizes ∷ fails "E" "late" ∷ []

after_calls-IsNumbered_example :
    IsNumbered (after_calls stages opened calls).log
    × (length (finals_for "k" (after_calls stages opened calls).log.events) ≤ 1)
after_calls-IsNumbered_example =
    after_calls-IsNumbered stages opened calls "k" (make_log-IsNumbered "s" 100) (λ j. omega arith)

abbrev rolling_event : String → ℕ → ℕ → Emitted
rolling_event id from to = record {
  event_id = id;
  start_ms = from;
  end_ms = to;
  session_speaker_id = "sess_spk_1";
  source_track = none;
}

abbrev first_lane : List Emitted
first_lane = rolling_event "a" 0 10 ∷ rolling_event "b" 0 20 ∷ rolling_event "c" 50 60 ∷ []

abbrev whole : Wanted
whole = record { interval = record { start_ms = 0; end_ms = 30 }; source_track = none }

superseded_event_id-Chosen_example : Chosen whole [] first_lane (some "b")
unfolding superseded_event_id intersection_ms
superseded_event_id-Chosen_example = superseded_event_id-Chosen whole [] first_lane

abbrev listening : Stream ℕ ℕ ℕ ℕ
listening = record running { speakers = with_first; emitted = first_lane }

abbrev paired : List (TranscriptSegment ℕ × Option String)
paired = (said, some "b") ∷ (said, some "a") ∷ (said, none) ∷ []

prepare-Distinct_example : Distinct (replaced paired)
unfolding prepare superseded_event_id intersection_ms stage Session.get emitted_by_id put
prepare-Distinct_example = prepare-Distinct stages (said ∷ said ∷ said ∷ []) listening paired refl

-- The session failed while it listened.
abbrev broken : Stream ℕ ℕ ℕ ℕ
broken = record listening { state_machine = failed }

abbrev finished : Stream ℕ ℕ ℕ ℕ
finished = (finalize stages broken).1

abbrev last_events : List (ServerEvent (Payload ℕ))
last_events = or_none (finalize stages broken).0
  where
    or_none : Result (List (ServerEvent (Payload ℕ))) → List (ServerEvent (Payload ℕ))
    or_none (ok events) = events
    or_none (err e) = []

finishes : finalize stages broken ≡ (ok last_events, finished)
unfolding finalize final_dedup_key samples_to_ms ms_to_samples process now_ms stage is_closed make
    emit_provisional drain_label_revisions drain_label_changes final_pass publish
    superseded_event_id intersection_ms emit append existing_final has_key final_events new_event
    remember_final retain with_event emitted_by_id Session.get decimal end_session
finishes = refl

finalize-closes_example :
    (finished.state_machine ≡ finalized)
    × (finalize stages finished ≡ (ok [], finished))
    × (push_pcm stages (6 ∷ 0 ∷ []) finished ≡ (err session_clock_discontinuity_error, finished))
finalize-closes_example =
    finalize-closes stages broken finished last_events (6 ∷ 0 ∷ []) refl finishes
