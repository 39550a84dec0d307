-- ===== src/Streaming/Recording.antt =====
-- src/sastt/application/streaming_pipeline.py: the audio that is kept of what came in.
use speaker_attributed_stt.Prelude.{
  ℕ, ◌+◌, ◌-◌, ◌%◌, ◌≡◌, ◌≢◌, sym, ap, ◌∙◌, true, false, Option, none, some, List, ◌++◌,
  append_assoc, length, length-append, length-drop, take-append-drop, take, ltb, ltb→lt, ==_iff,
  ◌<◌, if◌then◌else◌, ◌==◌, subst, arith, Bool-cases, inl, inr,
}
use speaker_attributed_stt.Prelude.Int.{pos}
use speaker_attributed_stt.Errors.{ok}
use speaker_attributed_stt.Exec.Preserves.{Preserves}
use speaker_attributed_stt.Audio.Time.{ms_to_samples}
use speaker_attributed_stt.Events.Log.{Append}
use speaker_attributed_stt.Streaming.{
  streaming, is_session_state, Payload, Ports, Stream, StreamConfig,
}
use speaker_attributed_stt.Streaming.Rolling.{
  emit, frames, kept, received, cut, push_pcm, last_items,
}
use speaker_attributed_stt.Streaming.Frames.{IsFrame, emit-log, maybe_process-Preserves}

module _ {A V F G W : Type 0} (p : Ports A V F G W) where
  -- The temporary file, if there is one, holds these samples.
  abbrev pub Spooled : Option (List A) → List A → Type 0
  Spooled none heard = Unit {0}
  Spooled (some pcm) heard = pcm ≡ heard

  -- After the samples `heard` came in, the ring holding at most `ring`: the count is theirs, memory
  -- holds the last of them, as many as came in or else as the ring holds, and the file holds all.
  pub record IsRecorded (ring : ℕ) (heard : List A) (config : StreamConfig) (total : ℕ)
      (samples : List A) (pcm : Option (List A)) : Type 0 where
    pub sized : ms_to_samples (pos config.ring_ms) (pos config.sample_rate) ≡ ok ring
    pub counted : total ≡ length heard
    pub recent : (old : List A) × (heard ≡ old ++ samples)
    pub filled : length samples ≡ (if ltb ring (length heard) then ring else length heard)
    pub spooled : Spooled pcm heard

  abbrev pub Records : ℕ → List A → Stream A V F W → Type 0
  Records ring heard s = IsRecorded ring heard s.config s.total_samples s.samples s.session_pcm

  emit-Records :
      (ring : ℕ) (heard : List A) (a : Append (Payload F))
      → Preserves (Records ring heard) (emit p a)
  emit-Records ring heard a s h = elim (emit-log p a s) [
    | inl same ↦ subst (Records ring heard) (sym same) h
    | inr (made, done, changed) ↦ subst (Records ring heard) (sym changed) h
  ]

  Records-IsFrame : (ring : ℕ) (heard : List A) → IsFrame p (Records ring heard)
  Records-IsFrame ring heard = record {
    emits = emit-Records ring heard;
    stages = λ s speakers pipeline h. h;
    notes = λ s emitted until last h. h;
    moves = λ s state done h. h;
  }

  -- The last items of a list that is longer are the end of it.
  last_items-recent :
      (ring : ℕ) (xs : List A)
      → ring ≢ 0
      → (old : List A) × (xs ≡ old ++ last_items ring xs)
        × (ring < length xs → length (last_items ring xs) ≡ ring)
  last_items-recent ring xs some_room = elim (Bool-cases (ring == 0)) [
    | inl e ↦ absurd (some_room ((==_iff ring 0).0 e))
    | inr e ↦ rw e (
      take (length xs - ring) xs,
      sym (take-append-drop (length xs - ring) xs),
      λ more. omega (arith, more, length-drop {0} (length xs - ring) xs),
    )
  ]

  -- A frame, before and after the ring is cut.
  received-recent :
      (heard frame : List A) (old samples : List A)
      → heard ≡ old ++ samples
      → heard ++ frame ≡ old ++ (samples ++ frame)
  received-recent heard frame old samples e =
      ap (λ l. l ++ frame) e ∙ append_assoc old samples frame

  kept-Spooled :
      (pcm : Option (List A)) (heard frame : List A)
      → Spooled pcm heard
      → Spooled (kept p pcm frame) (heard ++ frame)
  unfolding kept
  kept-Spooled none heard frame h = tt
  kept-Spooled (some pcm) heard frame h = ap (λ l. l ++ frame) h

  -- More than the ring holds came in, where the samples before the cut are more.
  full_ring :
      (ring : ℕ) (heard frame : List A) (s : Stream A V F W)
      → Records ring heard s
      → ltb ring (length (s.samples ++ frame)) ≡ true
      → ring ≡ (if ltb ring (length (heard ++ frame)) then ring else length (heard ++ frame))
  full_ring ring heard frame s h over =
      ground
        (arith, h.filled, over, length-append {0} s.samples frame, length-append {0} heard frame)

  whole_ring :
      (ring : ℕ) (heard frame : List A) (s : Stream A V F W)
      → Records ring heard s
      → ltb ring (length (s.samples ++ frame)) ≡ false
      → length (s.samples ++ frame)
        ≡ (if ltb ring (length (heard ++ frame)) then ring else length (heard ++ frame))
  whole_ring ring heard frame s h fits =
      ground
        (arith, h.filled, fits, length-append {0} s.samples frame, length-append {0} heard frame)

  cut-Records :
      (ring : ℕ) (heard frame : List A) (s : Stream A V F W)
      → ring ≢ 0
      → Records ring heard s
      → Records ring (heard ++ frame) (cut p ring (received p frame s))
  unfolding cut received
  cut-Records ring heard frame s room h =
      let joined = received-recent heard frame h.recent.0 s.samples h.recent.1 in
      let count : s.total_samples + length frame ≡ length (heard ++ frame) =
        omega (arith, h.counted, length-append {0} heard frame) in
      elim (Bool-cases (ltb ring (length (s.samples ++ frame)))) [
        | inl over ↦
            let (gone, split, full) = last_items-recent ring (s.samples ++ frame) room in
            rw over (record {
              sized = h.sized;
              counted = count;
              recent = (
                h.recent.0 ++ gone,
                joined
                    ∙ ap (λ l. h.recent.0 ++ l) split
                    ∙ sym (append_assoc h.recent.0 gone (last_items ring (s.samples ++ frame))),
              );
              filled =
                  full (ltb→lt ring (length (s.samples ++ frame)) over)
                  ∙ full_ring ring heard frame s h over;
              spooled = kept-Spooled s.session_pcm heard frame h.spooled;
            })
        | inr fits ↦ rw fits (record {
          sized = h.sized;
          counted = count;
          recent = (h.recent.0, joined);
          filled = whole_ring ring heard frame s h fits;
          spooled = kept-Spooled s.session_pcm heard frame h.spooled;
        })
      ]

  -- Pushing whole 16-bit samples into a session that streams keeps the record of the audio, however
  -- the processing that follows ends: every sample is counted, memory holds exactly the latest ones, all
  -- that came in or else as many as the ring holds, and the temporary file, if there is one, holds
  -- all from the start. The ring holds some sample.
  pub push_pcm-Records :
      (ring : ℕ) (heard : List A) (s : Stream A V F W) (payload : List ℕ)
      → ring ≢ 0
      → s.state_machine ≡ streaming
      → length payload % 2 ≡ 0
      → Records ring heard s
      → Records ring (heard ++ frames p payload) (push_pcm p payload s).1
  unfolding push_pcm is_session_state
  push_pcm-Records ring heard s payload room runs whole h =
      let running : is_session_state s.state_machine streaming ≡ true =
        ap (λ m. is_session_state m streaming) runs in
      let even : (length payload % 2 == 0) ≡ true = (==_iff (length payload % 2) 0).1 whole in
      let next = cut p ring (received p (frames p payload) s) in
      let h1 =
        maybe_process-Preserves p (Records ring (heard ++ frames p payload))
          (Records-IsFrame ring (heard ++ frames p payload)) next
          (cut-Records ring heard (frames p payload) s room h) in
      rw (running, even, h.sized) h1
