-- ===== src/Streaming/Ledger.antt =====
-- The event log of a session: whatever a client calls, its numbers have no gap and no final segment
-- is in it twice.
use speaker_attributed_stt.Prelude.{
  ℕ, ◌≤◌, sym, subst, String, List, [], ◌∷◌, length, inl, inr, arith, ◌%◌, ◌==◌, Bool-cases,
}
use speaker_attributed_stt.Prelude.Int.{pos}
use speaker_attributed_stt.Errors.{Result-cases}
use speaker_attributed_stt.Audio.Time.{ms_to_samples}
use speaker_attributed_stt.Exec.Preserves.{Preserves}
use speaker_attributed_stt.Events.Log.{Append, SessionEventLog}
use speaker_attributed_stt.Events.Log.Sequence.{IsNumbered, append-IsNumbered}
use speaker_attributed_stt.Events.Log.Finals.{HasOneFinal, append-HasOneFinal, held-le, finals_for}
use speaker_attributed_stt.Streaming.{Payload, Ports, Stream, streaming, is_session_state}
use speaker_attributed_stt.Streaming.Rolling.{emit, frames, received, cut, push_pcm}
use speaker_attributed_stt.Streaming.Finishing.{start, finalize, fail}
use speaker_attributed_stt.Streaming.Keeping.{start-Preserves, finalize-Preserves, fail-Preserves}
use speaker_attributed_stt.Streaming.Frames.{IsFrame, emit-log, maybe_process-Preserves}

-- What a client, or the server around the session, can call.
pub data Call : Type 0 where
  starts : Call
  pushes : List ℕ → Call
  finalizes : Call
  fails : String → String → Call

module _ {A V F G W : Type 0} (p : Ports A V F G W) where
  -- The session after a call, which may have raised.
  unfoldable pub after_call : Stream A V F W → Call → Stream A V F W
  after_call s starts = (start p s).1
  after_call s (pushes payload) = (push_pcm p payload s).1
  after_call s finalizes = (finalize p s).1
  after_call s (fails code message) = (fail p code message s).1

  unfoldable pub after_calls : Stream A V F W → List Call → Stream A V F W
  after_calls s [] = s
  after_calls s (c ∷ cs) = after_calls (after_call s c) cs

  pub record IsOrderly (log : SessionEventLog (Payload F)) : Type 0 where
    pub numbered : IsNumbered log
    pub one_final : HasOneFinal log

  abbrev Ordered : Stream A V F W → Type 0
  Ordered s = IsOrderly s.log

  emit-Ordered : (a : Append (Payload F)) → Preserves Ordered (emit p a)
  emit-Ordered a s h = elim (emit-log p a s) [
    | inl same ↦ subst Ordered (sym same) h
    | inr (made, done, changed) ↦ subst Ordered (sym changed) (record {
      numbered = (append-IsNumbered s.log a _ _ {e = made.0} {log' = made.1} h.numbered done).0;
      one_final = append-HasOneFinal s.log a _ _ {e = made.0} {log' = made.1} done h.one_final;
    })
  ]

  Ordered-IsFrame : IsFrame p Ordered
  Ordered-IsFrame = record {
    emits = emit-Ordered;
    stages = λ s speakers pipeline h. h;
    notes = λ s emitted until last h. h;
    moves = λ s state done h. h;
  }

  push_pcm-Ordered : (payload : List ℕ) → Preserves Ordered (push_pcm p payload)
  unfolding push_pcm
  push_pcm-Ordered payload s h = elim (Bool-cases (is_session_state s.state_machine streaming)) [
    | inr idle ↦ rw idle h
    | inl running ↦ rw running (elim (Bool-cases (length payload % 2 == 0)) [
      | inr odd ↦ rw odd h
      | inl even ↦
          rw even
            (elim (Result-cases (ms_to_samples (pos s.config.ring_ms) (pos s.config.sample_rate))) [
              | inl (e, q) ↦ rw q h
              | inr (ring, q) ↦ rw q (
                  maybe_process-Preserves p Ordered Ordered-IsFrame
                    (cut p ring (received p (frames p payload) s)) h)
            ])
    ])
  ]

  after_call-Ordered : (s : Stream A V F W) (c : Call) → Ordered s → Ordered (after_call s c)
  unfolding after_call
  after_call-Ordered s starts h = start-Preserves p Ordered Ordered-IsFrame s h
  after_call-Ordered s (pushes payload) h = push_pcm-Ordered payload s h
  after_call-Ordered s finalizes h = finalize-Preserves p Ordered Ordered-IsFrame s h
  after_call-Ordered s (fails code message) h =
      fail-Preserves p Ordered Ordered-IsFrame code message s h

  after_calls-Ordered :
      (s : Stream A V F W) (cs : List Call) → Ordered s → Ordered (after_calls s cs)
  unfolding after_calls
  after_calls-Ordered s [] h = h
  after_calls-Ordered s (c ∷ cs) h =
      after_calls-Ordered (after_call s c) cs (after_call-Ordered s c h)

  -- Whatever is called on a session and in whatever order, calls that raise included: a log that was
  -- numbered without gaps and had each final event remembered stays numbered without gaps, and holds
  -- at most one final event for each dedup key.
  pub after_calls-IsNumbered :
      (s : Stream A V F W) (cs : List Call) (key : String)
      → IsNumbered s.log
      → HasOneFinal s.log
      → IsNumbered (after_calls s cs).log
        × (length (finals_for key (after_calls s cs).log.events) ≤ 1)
  after_calls-IsNumbered s cs key n o =
      let h = after_calls-Ordered s cs (record { numbered = n; one_final = o }) in
      (
        h.numbered,
        omega (arith, h.one_final key, held-le (after_calls s cs).log.final_by_dedup_key key),
      )
