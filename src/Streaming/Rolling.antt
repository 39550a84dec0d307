-- ===== src/Streaming/Rolling.antt =====
-- src/sastt/application/streaming_pipeline.py: the frames that come in, the window in memory, one
-- rolling step, and the events of the first lane.
use speaker_attributed_stt.Prelude.{
  ℕ, ◌+◌, ◌-◌, ◌%◌, max, String, Bool, true, false, not, ◌&&◌, ◌||◌, Option, none, some, List, [],
  ◌∷◌, ◌++◌, if◌then◌else◌, length, drop, filter, leb, ltb, ◌==◌,
}
use speaker_attributed_stt.Prelude.Int.{pos}
use speaker_attributed_stt.Errors.{
  ok, err, sastt_error, session_clock_discontinuity_error, raise_if,
}
use speaker_attributed_stt.Exec.{Exec, pure, lift, reads, tries, modify, ◌>>=◌, ◌>>◌}
use speaker_attributed_stt.Audio.Time.{samples_to_ms, ms_to_samples}
use speaker_attributed_stt.Audio.Interval.{TimeInterval, make}
use speaker_attributed_stt.Session.{Session, LabelChange}
use speaker_attributed_stt.Session.Resolution.{drain_label_changes}
use speaker_attributed_stt.Transcript.{TranscriptSegment}
use speaker_attributed_stt.Events.Log.{
  EventType, transcript_provisional, transcript_revision, ServerEvent, Append, append,
}
use speaker_attributed_stt.Streaming.{
  streaming, is_session_state, Payload, transcript, relabelled, Ports, Stream,
}

-- `xs[-n:]`; the slice from `-0` is the whole list.
abbrev pub last_items {ℓ} : {A : Type ℓ} → ℕ → List A → List A
last_items n xs = if n == 0 then xs else drop (length xs - n) xs

module _ {A V F G W : Type 0} (p : Ports A V F G W) where
  -- The pairs of bytes; a last byte alone cannot occur, since the length was checked.
  unfoldable pub frames : List ℕ → List A
  frames [] = []
  frames (b ∷ []) = []
  frames (a ∷ b ∷ rest) = p.sample a b ∷ frames rest

  -- A call of the log, by the clock and the new id for its next event.
  unfoldable pub emit : Append (Payload F) → Exec (Stream A V F W) (ServerEvent (Payload F))
  emit a s =
      let number = s.log.sequence + 1 in
      elim (append s.log a (p.clock number) (p.new_event_id number)) [
        | err e ↦ (err e, s)
        | ok made ↦ (ok made.0, record s { log = made.1 })
      ]

  -- The arguments that `append` has by default, but the type, the payload and the versions.
  abbrev pub plain :
      EventType → Payload F → List (String × Option String) → Option String → Append (Payload F)
  plain event_type payload model_versions config_version = record {
    event_type = event_type;
    revision = 1;
    supersedes_event_id = none;
    is_final = false;
    payload = payload;
    model_versions = model_versions;
    config_version = config_version;
    dedup_key = none;
    event_id = none;
  }

  -- A stage of the pipeline, which changes the speakers and what the pipeline remembers.
  unfoldable pub stage : {X : Type 0} → Exec (Session V F × W) X → Exec (Stream A V F W) X
  stage m s =
      let (r, after) = m (s.speakers, s.pipeline) in
      (r, record s { speakers = after.0; pipeline = after.1 })

  -- `now_ms`
  unfoldable pub now_ms : Exec (Stream A V F W) ℕ
  now_ms = tries (λ s. samples_to_ms (pos s.total_samples) (pos s.config.sample_rate))

  -- `_window_buffer`: the samples and the number of the first.
  unfoldable pub window_of : Bool → Exec (Stream A V F W) (Option (List A × ℕ))
  window_of true = pure none
  window_of false = do
    window_samples ← tries (λ s. ms_to_samples (pos s.config.window_ms) (pos s.config.sample_rate))
    reads λ s.
        let chunk = last_items window_samples s.samples in
        if length chunk == 0 then none else some (chunk, s.total_samples - length chunk)

  unfoldable pub window_buffer : Exec (Stream A V F W) (Option (List A × ℕ))
  unfolding window_of
  window_buffer = do silent ← reads (λ s. length s.samples == 0); window_of silent

  abbrev pub revision_of :
      LabelChange → List (String × Option String) → Option String → Append (Payload F)
  revision_of change model_versions config_version =
      record (plain transcript_revision (relabelled change) model_versions config_version) {
        revision = 2;
      }

  unfoldable pub emit_revisions :
      List LabelChange → Exec (Stream A V F W) (List (ServerEvent (Payload F)))
  emit_revisions [] = pure []
  emit_revisions (change ∷ rest) = do
    config ← reads (λ s. s.config)
    event ← emit (revision_of change config.model_versions config.config_version)
    others ← emit_revisions rest
    pure (event ∷ others)

  -- `_drain_label_revisions`
  unfoldable pub drain_label_revisions : Exec (Stream A V F W) (List (ServerEvent (Payload F)))
  unfolding emit_revisions
  drain_label_revisions = do
    changes ← stage (λ sw. let (r, s') = drain_label_changes sw.0 in (r, (s', sw.1)))
    emit_revisions changes

  abbrev pub note_emitted :
      TranscriptSegment F → ServerEvent (Payload F) → Stream A V F W → Stream A V F W
  note_emitted g event s = record s {
    emitted =
        s.emitted
        ++ record {
          event_id = event.event_id;
          start_ms = g.start_ms;
          end_ms = g.end_ms;
          session_speaker_id = g.session_speaker_id;
          source_track = g.source_track;
        }
          ∷ [];
  }

  -- The loop of `_emit_provisional` over the fused segments.
  unfoldable pub emit_segments :
      List (TranscriptSegment F) → Exec (Stream A V F W) (List (ServerEvent (Payload F)))
  emit_segments [] = pure []
  emit_segments (g ∷ rest) = do
    config ← reads (λ s. s.config)
    event ←
        emit
          (plain transcript_provisional (transcript g) config.model_versions config.config_version)
    modify (note_emitted g event)
    others ← emit_segments rest
    pure (event ∷ others)

  unfoldable pub emit_provisional : List G → Exec (Stream A V F W) (List (ServerEvent (Payload F)))
  unfolding emit_segments
  emit_provisional [] = pure []
  emit_provisional (g ∷ gs) = do segments ← stage (p.fuse (g ∷ gs)); emit_segments segments

  -- The speech that is not yet out and, unless input is closed, has been over for long enough. The
  -- two sides of `now - end >= silence` are brought to one.
  unfoldable pub is_closed : Bool → ℕ → ℕ → ℕ → TimeInterval → Bool
  is_closed force_close now emitted_until_ms silence_ms i =
      ltb emitted_until_ms i.end_ms && (force_close || leb (i.end_ms + silence_ms) now)

  unfoldable pub transcribe_all :
      List A → ℕ → Bool → ℕ → List TimeInterval → Exec (Stream A V F W) (List G)
  transcribe_all chunk start force_close emitted_until_ms [] = pure []
  transcribe_all chunk start force_close emitted_until_ms (i ∷ rest) = do
    pending ← lift (make (pos (max i.start_ms emitted_until_ms)) (pos i.end_ms))
    groups ← stage (p.transcribe chunk start force_close pending)
    others ← transcribe_all chunk start force_close emitted_until_ms rest
    pure (groups ++ others)

  -- `max([emitted_until, *ends])`
  abbrev pub latest_end : ℕ → List TimeInterval → ℕ
  latest_end until [] = until
  latest_end until (i ∷ rest) = latest_end (max until i.end_ms) rest

  -- What follows when some speech is closed, and when none is.
  unfoldable pub emit_closed :
      List A → ℕ → Bool → List TimeInterval → Exec (Stream A V F W) (List (ServerEvent (Payload F)))
  unfolding transcribe_all
  emit_closed chunk start force_close [] = drain_label_revisions
  emit_closed chunk start force_close (i ∷ closed) = do
    until ← reads (λ s. s.emitted_until_ms)
    groups ← transcribe_all chunk start force_close until (i ∷ closed)
    events ← emit_provisional groups
    modify (λ s. record s { emitted_until_ms = latest_end s.emitted_until_ms (i ∷ closed) })
    revisions ← drain_label_revisions
    pure (events ++ revisions)

  unfoldable pub process_window :
      Bool → Option (List A × ℕ) → Exec (Stream A V F W) (List (ServerEvent (Payload F)))
  unfolding emit_closed
  process_window force_close none = pure []
  process_window force_close (some (chunk, start)) = do
    speech ← stage (p.hear chunk start)
    now ← now_ms
    closed ←
        reads λ s. filter (is_closed force_close now s.emitted_until_ms s.config.silence_ms) speech
    emit_closed chunk start force_close closed

  -- `_process`
  unfoldable pub process : Bool → Exec (Stream A V F W) (List (ServerEvent (Payload F)))
  unfolding process_window window_buffer
  process force_close = do
    now ← now_ms
    modify (λ s. record s { last_process_ms = now })
    buffer ← window_buffer
    process_window force_close buffer

  unfoldable pub process_if : Bool → Exec (Stream A V F W) (List (ServerEvent (Payload F)))
  process_if true = process false
  process_if false = pure []

  -- `_maybe_process`
  unfoldable pub maybe_process : Exec (Stream A V F W) (List (ServerEvent (Payload F)))
  unfolding process_if
  maybe_process = do
    now ← now_ms
    due ← reads (λ s. leb s.config.hop_ms (now - s.last_process_ms))
    process_if due

  unfoldable pub kept : Option (List A) → List A → Option (List A)
  kept none frame = none
  kept (some pcm) frame = some (pcm ++ frame)

  -- The buffers after a frame, before the ring is cut.
  unfoldable pub received : List A → Stream A V F W → Stream A V F W
  unfolding kept
  received frame s = record s {
    session_pcm = kept s.session_pcm frame;
    total_samples = s.total_samples + length frame;
    samples = s.samples ++ frame;
  }

  -- The ring is cut to its length where it is longer.
  unfoldable pub cut : ℕ → Stream A V F W → Stream A V F W
  cut ring_samples s = record s {
    samples =
        if ltb ring_samples (length s.samples)
        then last_items ring_samples s.samples
        else s.samples;
  }

  unfoldable pub push_pcm : List ℕ → Exec (Stream A V F W) (List (ServerEvent (Payload F)))
  unfolding frames received cut
  push_pcm payload = do
    running ← reads (λ s. is_session_state s.state_machine streaming)
    lift (raise_if (not running) session_clock_discontinuity_error)
    lift (raise_if (not (length payload % 2 == 0)) sastt_error)
    modify (received (frames payload))
    ring_samples ← tries (λ s. ms_to_samples (pos s.config.ring_ms) (pos s.config.sample_rate))
    modify (cut ring_samples)
    maybe_process
