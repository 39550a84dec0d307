-- ===== src/Events/Log/Replay.antt =====
-- Replay after a reconnect.
use speaker_attributed_stt.Prelude.{
  ℕ, zero, suc, ◌+◌, ◌-◌, ◌≤◌, ◌<◌, ◌≡◌, ◌≢◌, refl, true, false, List, [], ◌∷◌, arith, ltb, length,
  drop, filter,
}
use speaker_attributed_stt.Errors.{ok, err, value_error}
use speaker_attributed_stt.Events.Log.{ServerEvent, SessionEventLog, out_of_window, replay_from}
use speaker_attributed_stt.Events.Log.Sequence.{Counts, Counts-drop, Counts-length, IsNumbered}

module _ {P : Type 0} where
  filter_all :
      (m n last : ℕ) (es : List (ServerEvent P))
      → Counts n es last
      → m ≤ n
      → filter (λ e. ltb m e.sequence_number) es ≡ es
  filter_all m n last [] h le = refl
  filter_all m n last (e ∷ es) h le = ground (arith, filter_all m (suc n) last es h.1 (omega arith))

  -- Of numbered events the filter keeps those behind `n + k`.
  filter-eq_drop :
      (k n last : ℕ) (es : List (ServerEvent P))
      → Counts n es last
      → k ≤ length es
      → filter (λ e. ltb (n + k) e.sequence_number) es ≡ drop k es
  filter-eq_drop zero n last es h le = filter_all (n + 0) n last es h (omega arith)
  filter-eq_drop (suc k) n last [] h le = refl
  filter-eq_drop (suc k) n last (e ∷ es) h le =
      let shift : suc n + k ≡ n + suc k = omega arith in
      let ih = rw shift at (filter-eq_drop k (suc n) last es h.1 (omega arith)) in
      ground (arith, ih)

  in_window :
      (n m last : ℕ) (es : List (ServerEvent P))
      → Counts n es last
      → n ≤ m
      → out_of_window es m ≡ false
  unfolding out_of_window
  in_window n m last [] h le = refl
  in_window n m last (e ∷ es) h le = ground arith

  before_window :
      (n m last : ℕ) (es : List (ServerEvent P))
      → Counts n es last
      → es ≢ []
      → m < n
      → out_of_window es m ≡ true
  unfolding out_of_window
  before_window n m last [] h ne lt = absurd (ne refl)
  before_window n m last (e ∷ es) h ne lt = ground arith

  module _ (log : SessionEventLog P) (v : IsNumbered log) (last : ℕ) where
    -- From a number that the log still reaches back to and has given out, a replay returns the last
    -- events of the log, numbered from the next number to the log's last without a gap: nothing is
    -- lost and nothing is sent twice.
    pub replay_from_complete :
        v.before ≤ last
        → last ≤ log.sequence
        → (es : List (ServerEvent P)) × (replay_from log last ≡ ok es)
          × (es ≡ drop (last - v.before) log.events)
          × Counts last es log.sequence
    unfolding replay_from
    replay_from_complete lo hi =
        let k = last - v.before in
        let back : v.before + k ≡ last = omega arith in
        let fits : k ≤ length log.events =
          omega (arith, Counts-length v.before log.sequence log.events v.counts) in
        let kept = rw back at (filter-eq_drop k v.before log.sequence log.events v.counts fits) in
        (
          drop k log.events,
          ground (arith, kept, in_window v.before last log.sequence log.events v.counts lo),
          refl,
          rw back at (Counts-drop k v.before log.sequence log.events fits v.counts),
        )

    -- A number that the log has not given out, or that has left the window, is refused.
    pub replay_from-ahead : log.sequence < last → replay_from log last ≡ err value_error
    unfolding replay_from
    replay_from-ahead h = ground arith

    pub replay_from-lost :
        log.events ≢ [] → last < v.before → replay_from log last ≡ err value_error
    unfolding replay_from
    replay_from-lost ne h =
        ground (arith, before_window v.before last log.sequence log.events v.counts ne h)
