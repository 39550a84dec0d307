-- ===== src/Streaming/Superseding.antt =====
-- src/sastt/application/streaming_pipeline.py: which provisional event a final segment replaces.
use speaker_attributed_stt.Prelude.{
  ℕ, String, Bool, true, false, ◌||◌, Option, none, some, List, [], ◌∷◌, str_eq, if◌then◌else◌, any,
  ltb, leb, ◌==◌,
}
use speaker_attributed_stt.Audio.Interval.{TimeInterval, intersection_ms}
use speaker_attributed_stt.Streaming.{Emitted}

-- `emitted.source_track == segment.source_track`, where either may be missing.
abbrev pub same_track : Option ℕ → Option ℕ → Bool
same_track none none = true
same_track (some a) (some b) = a == b
same_track _ _ = false

-- `(same_track, overlap)`
pub record Key : Type 0 where
  pub same : Bool
  pub overlap : ℕ

-- `a > b` on such pairs.
unfoldable pub exceeds : Key → Key → Bool
exceeds a b =
    if a.same
    then (if b.same then ltb b.overlap a.overlap else true)
    else (if b.same then false else ltb b.overlap a.overlap)

-- What the loop looks for: the interval and track of the segment.
pub record Wanted : Type 0 where
  pub interval : TimeInterval
  pub source_track : Option ℕ

unfoldable pub key_of : Wanted → Emitted → Key
key_of w e = record {
  same = same_track e.source_track w.source_track;
  overlap = intersection_ms (record { start_ms = e.start_ms; end_ms = e.end_ms }) w.interval;
}

abbrev pub contains : List String → String → Bool
contains ids id = any (str_eq id) ids

-- Whether the round passes the event over: it is used, or has no time in common.
unfoldable pub is_passed : Wanted → List String → Emitted → Bool
unfolding key_of
is_passed w used e = contains used e.event_id || leb (key_of w e).overlap 0

-- The best event so far with its key.
pub record Best : Type 0 where
  pub best : Option Emitted
  pub best_key : Key

unfoldable pub consider : Wanted → List String → Emitted → Best → Best
unfolding is_passed exceeds
consider w used e b =
    if is_passed w used e
    then b
    else if exceeds (key_of w e) b.best_key
    then record { best = some e; best_key = key_of w e }
    else b

unfoldable pub best_from : Wanted → List String → List Emitted → Best → Best
unfolding consider
best_from w used [] b = b
best_from w used (e ∷ es) b = best_from w used es (consider w used e b)

unfoldable pub best_emitted : Wanted → List String → List Emitted → Option Emitted
unfolding best_from
best_emitted w used es = found.best
  where
    found : Best
    found =
        best_from w used es
          (record { best = none; best_key = record { same = false; overlap = 0 } })

-- `_superseded_event_id`
unfoldable pub superseded_event_id : Wanted → List String → List Emitted → Option String
unfolding best_emitted
superseded_event_id w used es = elim (best_emitted w used es) [
  | none ↦ none
  | some e ↦ some e.event_id
]
