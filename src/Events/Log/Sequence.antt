-- ===== src/Events/Log/Sequence.antt =====
-- The events of a log are numbered without a gap, up to the last number given.
use speaker_attributed_stt.Prelude.{
  ℕ, zero, suc, ◌+◌, ◌-◌, ◌≤◌, ◌≡◌, ◌≢◌, refl, subst, sym, String, false, not, ◌&&◌, ◌==◌, ◌⊎◌, inl,
  inr, none, some, List, [], ◌∷◌, ◌++◌, arith, ltb, Bool-cases, Option-cases, length, length-drop,
  drop, All, All-append,
}
use speaker_attributed_stt.Errors.{ok}
use speaker_attributed_stt.Events.Log.{
  ServerEvent, SessionEventLog, Append, make_log, existing_final, new_event, has_key, with_event,
  append_new, append, retain,
}

module _ {P : Type 0} where
  -- The numbers are `n + 1`, `n + 2`, ..., `last`.
  abbrev pub Counts : ℕ → List (ServerEvent P) → ℕ → Type 0
  Counts n [] last = n ≡ last
  Counts n (e ∷ es) last = (e.sequence_number ≡ suc n) × Counts (suc n) es last

  pub Counts-append :
      (n last : ℕ) (es : List (ServerEvent P)) (e : ServerEvent P)
      → Counts n es last
      → e.sequence_number ≡ last + 1
      → Counts n (es ++ e ∷ []) e.sequence_number
  Counts-append n last [] e h q = (omega arith, omega arith)
  Counts-append n last (f ∷ es) e h q = (h.0, Counts-append (suc n) last es e h.1 q)

  pub Counts-drop :
      (k n last : ℕ) (es : List (ServerEvent P))
      → k ≤ length es
      → Counts n es last
      → Counts (n + k) (drop k es) last
  Counts-drop zero n last es le h = subst (λ m. Counts m es last) (omega arith) h
  Counts-drop (suc k) n last [] le h = absurd (omega arith)
  Counts-drop (suc k) n last (e ∷ es) le h =
      subst (λ m. Counts m (drop k es) last) (omega arith)
        (Counts-drop k (suc n) last es (omega arith) h.1)

  pub Counts-length :
      (n last : ℕ) (es : List (ServerEvent P)) → Counts n es last → last ≡ n + length es
  Counts-length n last [] h = omega arith
  Counts-length n last (e ∷ es) h = omega (arith, Counts-length (suc n) last es h.1)

  -- The log is numbered without a gap up to its counter, all its events are of its session, and it
  -- holds no more of them than its retention allows.
  pub record IsNumbered (log : SessionEventLog P) : Type 0 where
    pub before : ℕ
    pub counts : Counts before log.events log.sequence
    pub own : All (λ e. e.session_id ≡ log.session_id) log.events
    pub bounded : log.retention ≢ 0 → length log.events ≤ log.retention

  pub make_log-IsNumbered :
      (session_id : String) (retention : ℕ) → IsNumbered (make_log {P = P} session_id retention)
  make_log-IsNumbered session_id retention = record {
    before = 0;
    counts = refl;
    own = tt;
    bounded = λ _. omega arith;
  }

  All-drop {κ} :
      (Q : ServerEvent P → Type κ) (k : ℕ) (es : List (ServerEvent P))
      → All Q es
      → All Q (drop k es)
  All-drop Q zero es h = h
  All-drop Q (suc k) [] h = tt
  All-drop Q (suc k) (e ∷ es) h = All-drop Q k es h.1

  pub retain-All {κ} :
      (Q : ServerEvent P → Type κ) (retention : ℕ) (es : List (ServerEvent P))
      → All Q es
      → All Q (retain retention es)
  unfolding retain
  retain-All Q retention es h = ground (arith, All-drop Q (length es - retention) es h)

  pub retain-bounded :
      (retention : ℕ) (es : List (ServerEvent P))
      → retention ≢ 0
      → length (retain retention es) ≤ retention
  unfolding retain
  retain-bounded retention es h = ground (arith, length-drop (length es - retention) es)

  -- What `retain` drops from a numbered list is a beginning of it.
  pub retain-Counts :
      (retention n last : ℕ) (es : List (ServerEvent P))
      → Counts n es last
      → (m : ℕ) × Counts m (retain retention es) last
  unfolding retain
  retain-Counts retention n last es h =
      elim (Bool-cases (ltb retention (length es) && not (retention == 0))) [
        | inl e ↦ (
          n + (length es - retention),
          rw e (Counts-drop (length es - retention) n last es (omega arith) h),
        )
        | inr e ↦ (n, rw e h)
      ]

  with_event-IsNumbered :
      (log : SessionEventLog P) (e : ServerEvent P)
      → e.session_id ≡ log.session_id
      → e.sequence_number ≡ log.sequence + 1
      → IsNumbered log
      → IsNumbered (with_event log e)
  unfolding with_event
  with_event-IsNumbered log e s q v =
      let (before, counts) =
        retain-Counts log.retention v.before e.sequence_number (log.events ++ e ∷ [])
          (Counts-append v.before log.sequence log.events e v.counts q) in
      record {
        before = before;
        counts = counts;
        own =
            retain-All (λ f. f.session_id ≡ log.session_id) log.retention (log.events ++ e ∷ [])
              (All-append (λ f. f.session_id ≡ log.session_id) log.events (e ∷ []) v.own (s, tt));
        bounded = retain-bounded log.retention (log.events ++ e ∷ []);
      }

  -- The two ways in which `append` succeeds.
  pub append-eq-ok :
      (log : SessionEventLog P) (a : Append P) (now_ms : ℕ) (fresh_id : String) {e : ServerEvent P}
      {log' : SessionEventLog P}
      → append log a now_ms fresh_id ≡ ok (e, log')
      → ((existing_final log a.is_final a.dedup_key ≡ some e) × (log' ≡ log))
        ⊎ ((existing_final log a.is_final a.dedup_key ≡ none)
            × (has_key log.keys e.event_id e.revision ≡ false)
            × (1 ≤ a.revision)
            × (e ≡ new_event log a now_ms fresh_id)
            × (log' ≡ with_event log e))
  unfolding append_new append
  append-eq-ok log a now_ms fresh_id h =
      elim (Option-cases (existing_final log a.is_final a.dedup_key)) [
        | inl q ↦ inr (q, ground arith, ground arith, ground arith, ground arith)
        | inr (f, q) ↦ inl (ground arith, ground arith)
      ]

  -- A successful append to a numbered log keeps the numbering without gaps. Either it returns the
  -- final event that the log already had for the dedup key and changes nothing, or the event that it
  -- returns has the next number, which becomes the last number of the log.
  pub append-IsNumbered :
      (log : SessionEventLog P) (a : Append P) (now_ms : ℕ) (fresh_id : String) {e : ServerEvent P}
      {log' : SessionEventLog P}
      → IsNumbered log
      → append log a now_ms fresh_id ≡ ok (e, log')
      → IsNumbered log'
        × (((existing_final log a.is_final a.dedup_key ≡ some e) × (log' ≡ log))
            ⊎ ((e.sequence_number ≡ log.sequence + 1) × (log'.sequence ≡ e.sequence_number)))
  append-IsNumbered log a now_ms fresh_id {e} v h = elim (append-eq-ok log a now_ms fresh_id h) [
    | inl (q, same) ↦ (subst IsNumbered (sym same) v, inl (q, same))
    | inr (_, _, _, made, after) ↦
        let own : e.session_id ≡ log.session_id = rw made (unfold new_event in refl) in
        let next : e.sequence_number ≡ log.sequence + 1 = rw made (unfold new_event in refl) in
        (
          subst IsNumbered (sym after) (with_event-IsNumbered log e own next v),
          inr (next, rw after (unfold with_event in refl)),
        )
  ]
