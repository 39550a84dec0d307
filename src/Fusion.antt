-- ===== src/Fusion.antt =====
-- src/sastt/application/fusion.py: words and turns become segments. Floats, the calibrator and the
-- ULIDs are parameters.
pub mod Attribution
pub mod Words
pub mod Dedup
pub mod Segments
use Prim.Native.String.{String, ◌++◌ as join}
use speaker_attributed_stt.Prelude.{
  if◌then◌else◌, filter, any, str_eq, ℕ, ◌+◌, ◌-◌, Bool, true, false, not, ◌||◌, ◌&&◌, Option, none,
  some, List, [], ◌∷◌, ◌++◌, ltb, leb, ◌==◌, max, min, last?, length,
}
use speaker_attributed_stt.Prelude.Sort.{sorted}
use speaker_attributed_stt.Prelude.Text.{ends_with}
use speaker_attributed_stt.Prelude.Dict.{is_some, Dict, put, has}
use speaker_attributed_stt.Exec.{Exec, pure, lift, reads, tries, modify, ◌>>=◌, ◌>>◌}
use speaker_attributed_stt.Audio.Interval.{TimeInterval, intersection_ms}
use speaker_attributed_stt.Session.{Session, SessionSpeaker, by_cluster, get, provisional_speakers}
use speaker_attributed_stt.Session.Creating.{unattributed_speaker, ensure_cluster_speaker}
use speaker_attributed_stt.Transcript.{Word, word_interval}

abbrev pub sentence_final : List String
sentence_final = "." ∷ "?" ∷ "!" ∷ "…" ∷ []

-- src/sastt/domain/speakers.py: `SpeakerTurn`, with what is read from it here.
pub record SpeakerTurn : Type 0 where
  pub cluster_id : String
  pub interval : TimeInterval

pub record WordGroup (F : Type 0) : Type 0 where
  pub words : List (Word F)
  pub interval : TimeInterval
  pub is_overlap : Bool
  pub source_track : Option ℕ
  pub separation_backend : Option String
  pub session_speaker_id : Option String
  pub estimated_concurrent_speakers : Option ℕ
  pub count_confidence : Option F
  pub raw_scores : Dict F
  pub quality_flags : List String
  pub degraded_mode : Bool

-- `_Utterance`
pub record Utterance (F : Type 0) : Type 0 where
  pub speaker_id : String
  pub words : List (Word F)
  pub group : WordGroup F

-- The turn that is best so far in the loop of `attribute_word`.
pub record Best : Type 0 where
  pub cluster : Option String
  pub overlap : ℕ

abbrev pub no_turn : Best
no_turn = record { cluster = none; overlap = 0 }

-- The utterances so far, and the current one, which is the last of them.
pub record Progress (F : Type 0) : Type 0 where
  pub earlier : List (Utterance F)
  pub current : Option (Utterance F)

-- `abs(a - b)`
abbrev pub absolute_gap : ℕ → ℕ → ℕ
absolute_gap a b = (a - b) + (b - a)

-- `previous_speaker_id is not None and candidate_id == previous_speaker_id`
unfoldable pub same_speaker : Option String → Option String → Bool
same_speaker none candidate = false
same_speaker (some p) none = false
same_speaker (some p) (some c) = str_eq c p

module _ {V F : Type 0} where
  abbrev candidate_id : Option (SessionSpeaker V F) → Option String
  candidate_id none = none
  candidate_id (some p) = some p.session_speaker_id

  -- One round of the loop of `attribute_word`, where `clusters` is `by_cluster` of the state, which
  -- the loop does not change.
  unfoldable pub consider : Session V F → TimeInterval → Option String → Best → SpeakerTurn → Best
  unfolding same_speaker
  consider s word previous best turn =
      let overlap = intersection_ms turn.interval word in
      if overlap == 0
      then best
      else if ltb best.overlap overlap
      then record { cluster = some turn.cluster_id; overlap = overlap }
      else if (overlap == best.overlap)
          && same_speaker previous (candidate_id (by_cluster s turn.cluster_id))
      then record { cluster = some turn.cluster_id; overlap = best.overlap }
      else best

  unfoldable pub best_turn :
      Session V F → TimeInterval → Option String → Best → List SpeakerTurn → Best
  unfolding consider
  best_turn s word previous best [] = best
  best_turn s word previous best (turn ∷ turns) =
      best_turn s word previous (consider s word previous best turn) turns

  attributed_to : Option String → String → Exec (Session V F) (Option String)
  attributed_to none ulid = pure none
  attributed_to (some cluster) ulid = do
    speaker ← ensure_cluster_speaker cluster ulid
    pure (some speaker.session_speaker_id)

  -- `attribute_word`. The interval of a word can always be made, so it is made once, before the loop.
  unfoldable pub attribute_word :
      Word F → List SpeakerTurn → Option String → String → Exec (Session V F) (Option String)
  unfolding best_turn attributed_to
  attribute_word word turns previous ulid = do
    interval ← lift (word_interval word)
    best ← reads (λ s. best_turn s interval previous no_turn turns)
    attributed_to best.cluster ulid

  first_or_sink : List (SessionSpeaker V F) → String → Exec (Session V F) String
  first_or_sink (p ∷ rest) ulid = pure p.session_speaker_id
  first_or_sink [] ulid = do sink ← unattributed_speaker ulid; pure sink.session_speaker_id

  -- `_fallback_speaker_id`
  unfoldable pub fallback_speaker_id : String → Exec (Session V F) String
  unfolding first_or_sink
  fallback_speaker_id ulid = do
    provisional ← reads provisional_speakers
    first_or_sink provisional ulid

  id_or_fallback : Option String → String → Exec (Session V F) String
  unfolding fallback_speaker_id
  id_or_fallback (some id) ulid = pure id
  id_or_fallback none ulid = fallback_speaker_id ulid

  given_or_attributed :
      WordGroup F
      → List SpeakerTurn
      → Option String
      → Word F
      → String
      → Exec (Session V F) (Option String)
  unfolding attribute_word
  given_or_attributed group turns previous word ulid =
      if group.is_overlap || is_some group.session_speaker_id
      then pure group.session_speaker_id
      else attribute_word word turns previous ulid

  -- The canonical speaker of a word, in the loop of `_coalesce`. One speaker at most is created.
  unfoldable pub speaker_of_word :
      WordGroup F → List SpeakerTurn → Option String → Word F → String → Exec (Session V F) String
  unfolding given_or_attributed id_or_fallback
  speaker_of_word group turns previous word ulid = do
    given ← given_or_attributed group turns previous word ulid
    id ← id_or_fallback given ulid
    speaker ← tries (λ s. get s id)
    pure speaker.session_speaker_id

module _ {F : Type 0} where
  -- `max(word.end_ms for word in self.words)`; an utterance has a word.
  unfoldable pub last_end : List (Word F) → ℕ
  last_end [] = 0
  last_end (w ∷ ws) = max w.end_ms (last_end ws)

  ends_sentence : Option (Word F) → Bool
  ends_sentence none = false
  ends_sentence (some w) = any (ends_with w.text) sentence_final

  -- Whether a word joins the current utterance. `word.start_ms - end <= pause` without a
  -- subtraction that could be negative.
  unfoldable pub joins : ℕ → Utterance F → String → Word F → Bool
  unfolding ends_sentence last_end
  joins max_pause_ms u canonical word =
      str_eq u.speaker_id canonical
      && leb word.start_ms (last_end u.words + max_pause_ms)
      && not (ends_sentence (last? u.words))

  -- `key=lambda w: (w.start_ms, w.end_ms)`
  unfoldable pub word_le : Word F → Word F → Bool
  word_le a b =
      if a.start_ms == b.start_ms then leb a.end_ms b.end_ms else ltb a.start_ms b.start_ms

  abbrev pub started : WordGroup F → String → Word F → Utterance F
  started group canonical word = record { speaker_id = canonical; words = word ∷ []; group = group }

  abbrev pub finished : Progress F → List (Utterance F)
  finished p = elim p.current [ none ↦ p.earlier | some u ↦ p.earlier ++ u ∷ [] ]

  unfoldable pub place_with :
      ℕ → WordGroup F → String → Word F → List (Utterance F) → Option (Utterance F) → Progress F
  unfolding joins
  place_with max_pause_ms group canonical word earlier none = record {
    earlier = earlier;
    current = some (started group canonical word);
  }
  place_with max_pause_ms group canonical word earlier (some u) =
      if joins max_pause_ms u canonical word
      then record { earlier = earlier; current = some (record u { words = u.words ++ word ∷ [] }) }
      else record { earlier = earlier ++ u ∷ []; current = some (started group canonical word) }

module _ {V F : Type 0} (max_pause_ms : ℕ) (turns : List SpeakerTurn) (ulid : ℕ → String) where
  -- The loop over the words of a group, the `n`th word of the run first.
  unfoldable pub coalesce_words :
      WordGroup F → Option String → Progress F → ℕ → List (Word F) → Exec (Session V F) (Progress F)
  unfolding place_with speaker_of_word
  coalesce_words group previous p n [] = pure p
  coalesce_words group previous p n (word ∷ words) = do
    canonical ← speaker_of_word group turns previous word (ulid n)
    coalesce_words group (some canonical)
        (place_with max_pause_ms group canonical word p.earlier p.current) (n + 1) words

  unfoldable pub coalesce :
      List (Utterance F) → ℕ → List (WordGroup F) → Exec (Session V F) (List (Utterance F))
  unfolding coalesce_words word_le
  coalesce utterances n [] = pure utterances
  coalesce utterances n (group ∷ groups) = do
    p ←
        coalesce_words group none (record { earlier = utterances; current = none }) n
          (sorted word_le group.words)
    coalesce (finished p) (n + length group.words) groups

module _ {F : Type 0} where
  -- `word.word_id and word.word_id in known_ids`
  has_id : Option String → Word F → Bool
  has_id none other = false
  has_id (some id) other =
      not (str_eq id "") && elim other.word_id [ none ↦ false | some j ↦ str_eq id j ]

  same_word : ℕ → Word F → Word F → Bool
  same_word tolerance_ms word other =
      str_eq other.text word.text && leb (absolute_gap other.start_ms word.start_ms) tolerance_ms

  unfoldable pub is_known : List (Word F) → ℕ → Word F → Bool
  unfolding has_id same_word
  is_known existing tolerance_ms word =
      any (has_id word.word_id) existing || any (same_word tolerance_ms word) existing

  -- `dedup_words`
  unfoldable pub dedup_words : List (Word F) → List (Word F) → ℕ → List (Word F)
  unfolding is_known
  dedup_words existing incoming tolerance_ms =
      filter (λ w. not (is_known existing tolerance_ms w)) incoming
