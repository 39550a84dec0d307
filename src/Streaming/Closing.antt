-- ===== src/Streaming/Closing.antt =====
-- src/sastt/application/streaming_pipeline.py: what `finalize` leaves behind.
use speaker_attributed_stt.Prelude.{
  ℕ, ◌≡◌, refl, sym, ap, subst, true, false, inl, inr, List, [], ◌++◌, length, arith,
}
use speaker_attributed_stt.Prelude.Int.{pos}
use speaker_attributed_stt.Errors.{ok, err, Result-cases, session_clock_discontinuity_error}
use speaker_attributed_stt.Exec.Preserves.{Preserves}
use speaker_attributed_stt.Audio.Time.{samples_to_ms}
use speaker_attributed_stt.Events.Log.{ServerEvent, Append, session_finalized, final_events}
use speaker_attributed_stt.Streaming.{
  finalizing, finalized, streaming, is_session_state, Payload, ended, Ports, Stream,
}
use speaker_attributed_stt.Streaming.Rolling.{emit, plain, now_ms, process, push_pcm}
use speaker_attributed_stt.Streaming.Finishing.{end_session, final_pass, finalize, finalize_if}
use speaker_attributed_stt.Streaming.Frames.{emit-log}

module _ {A V F G W : Type 0} (p : Ports A V F G W) where
  abbrev Closed : Stream A V F W → Type 0
  Closed s = (s.state_machine ≡ finalized) × (s.is_finalized ≡ true)

  emit-Closed : (a : Append (Payload F)) → Preserves Closed (emit p a)
  emit-Closed a s h = elim (emit-log p a s) [
    | inl same ↦ subst Closed (sym same) h
    | inr (made, done, changed) ↦ subst Closed (sym changed) h
  ]

  end-Closed :
      (events : List (ServerEvent (Payload F))) (s : Stream A V F W)
      → (es : List (ServerEvent (Payload F))) → (end_session p events s).0 ≡ ok es
      → Closed (end_session p events s).1
  unfolding end_session now_ms
  end-Closed events s es h =
      let s1 = record s { state_machine = finalized; is_finalized = true } in
      elim (Result-cases (samples_to_ms (pos s.total_samples) (pos s.config.sample_rate))) [
        | inl (e, q) ↦ let k = rw q at h in cc
        | inr (now, q) ↦ rw q (
            let a =
              plain p session_finalized (ended (length (final_events s1.log)) now)
                s.config.model_versions s.config.config_version in
            let h2 = emit-Closed a s1 (refl, refl) in ground arith)
      ]

  finalize_if-Closed :
      (s : Stream A V F W) (es : List (ServerEvent (Payload F)))
      → (finalize_if p false s).0 ≡ ok es
      → Closed (finalize_if p false s).1
  unfolding finalize_if
  finalize_if-Closed s es h =
      let s1 = record s { state_machine = finalizing } in
      let s2 = (process p true s1).1 in
      elim (Result-cases (process p true s1).0) [
        | inl (e, q) ↦ let k = rw q at h in cc
        | inr (rolling, q) ↦ elim (Result-cases (final_pass p s2).0) [
          | inl (e, r) ↦ let k = rw (q, r) at h in cc
          | inr (finals, r) ↦
              rw (q, r) (end-Closed (rolling ++ finals) (final_pass p s2).1 es (rw (q, r) at h))
        ]
      ]

  idle_finalize : (s : Stream A V F W) → s.is_finalized ≡ true → finalize p s ≡ (ok [], s)
  unfolding finalize finalize_if
  idle_finalize s h = ap (λ b. finalize_if p b s) h

  -- A session that was not finalized, in whatever state it was, a failed one included: once
  -- `finalize` returned, the session is in the finalized state, another call returns no event and
  -- changes nothing, and so does pushing audio, which raises the clock error.
  pub finalize-closes :
      (s s' : Stream A V F W) (es : List (ServerEvent (Payload F))) (payload : List ℕ)
      → s.is_finalized ≡ false
      → finalize p s ≡ (ok es, s')
      → (s'.state_machine ≡ finalized)
        × (finalize p s' ≡ (ok [], s'))
        × (push_pcm p payload s' ≡ (err session_clock_discontinuity_error, s'))
  unfolding finalize push_pcm is_session_state
  finalize-closes s s' es payload fresh h =
      let done : finalize_if p false s ≡ (ok es, s') =
        subst (λ b. finalize_if p b s ≡ (ok es, s')) fresh h in
      let closed : Closed s' =
        subst Closed (ap (λ r. r.1) done) (finalize_if-Closed s es (ap (λ r. r.0) done)) in
      let idle : is_session_state s'.state_machine streaming ≡ false =
        ap (λ m. is_session_state m streaming) closed.0 in
      (closed.0, idle_finalize s' closed.1, rw idle refl)
