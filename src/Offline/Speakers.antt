-- ===== src/Offline/Speakers.antt =====
-- src/sastt/application/offline_pipeline.py: what the stages do with the speakers of a session.
use speaker_attributed_stt.Prelude.{
  ℕ, String, Bool, true, false, ◌==◌, Option, none, some, List, [], ◌∷◌, ◌++◌, any, str_eq, length,
  if◌then◌else◌,
}
use speaker_attributed_stt.Prelude.Dict.{is_some}
use speaker_attributed_stt.Errors.{Result, ok, err, index_error}
use speaker_attributed_stt.Exec.{Exec, pure, reads, tries, ◌>>=◌, ◌>>◌}
use speaker_attributed_stt.Audio.Interval.{TimeInterval, intersects}
use speaker_attributed_stt.Identity.{IdentityState, is_state}
use speaker_attributed_stt.Embedding.{
  Linear, SpeakerEmbedding, SpeakerPrototype, EmbeddingOrigin, separated, clean,
}
use speaker_attributed_stt.Session.{
  Session, SessionSpeaker, active, by_cluster, provisional_speakers, speaker_state,
}
use speaker_attributed_stt.Session.Merging.{can_merge, merge}
use speaker_attributed_stt.Session.Resolution.{VoiceIdDecision, apply_voice_id}
use speaker_attributed_stt.Fusion.{SpeakerTurn}
use speaker_attributed_stt.Router.{CountingEvidence, no_evidence}
use speaker_attributed_stt.Linking.{LinkingConfig, LinkingDecision, linked, Scores}
use speaker_attributed_stt.Linking.Linker.{link_sources}

-- The set of the texts, each where it first occurs.
distinct_from : List String → List String → List String
distinct_from seen [] = seen
distinct_from seen (x ∷ xs) =
    distinct_from (if any (str_eq x) seen then seen else seen ++ x ∷ []) xs

-- The clusters whose turns meet the interval.
clusters_over : List SpeakerTurn → TimeInterval → List String
unfolding distinct_from intersects
clusters_over turns interval = distinct_from [] (ids turns)
  where
    ids : List SpeakerTurn → List String
    ids [] = []
    ids (t ∷ ts) =
        let rest = ids ts in if intersects t.interval interval then t.cluster_id ∷ rest else rest

-- The diarization is given by its regular tracks.
unfoldable pub counting_evidence :
    {F : Type 0} → Option (List SpeakerTurn) → TimeInterval → CountingEvidence F
unfolding clusters_over
counting_evidence none interval = no_evidence
counting_evidence (some turns) interval =
    let active_clusters = clusters_over turns interval in
    if length active_clusters == 0
    then no_evidence
    else record no_evidence { diarization_active_speakers = some (length active_clusters) }

-- `result.decisions[0]`: the speaker that it links to, if it links.
linked_to : {F : Type 0} → List (LinkingDecision F) → Result (Option String)
linked_to [] = err index_error
linked_to (d ∷ ds) = ok (elim d.status [ linked ↦ d.session_speaker_id | _ ↦ none ])

module _ {V F : Type 0} where
  keys_of : Session V F → List String → List String
  unfolding by_cluster
  keys_of s [] = []
  keys_of s (cluster ∷ clusters) =
      let rest = keys_of s clusters in
      elim (by_cluster s cluster) [ none ↦ rest | some k ↦ k.session_speaker_id ∷ rest ]

  without_cluster : List (SessionSpeaker V F) → List String
  without_cluster [] = []
  without_cluster (k ∷ ks) =
      let rest = without_cluster ks in
      if is_some k.cluster_id then rest else k.session_speaker_id ∷ rest

  -- `_active_speakers`: the candidates, if any, and how many of them have a cluster.
  unfoldable pub active_speakers :
      Bool → Option (List SpeakerTurn) → Session V F → TimeInterval → Option (List String) × ℕ
  unfolding distinct_from clusters_over keys_of without_cluster active
  active_speakers restrict none s interval = (none, 0)
  active_speakers false (some turns) s interval = (none, 0)
  active_speakers true (some turns) s interval =
      let keys = distinct_from [] (keys_of s (clusters_over turns interval)) in
      if length keys == 0
      then (none, 0)
      else (some (distinct_from keys (without_cluster (active s))), length keys)

  -- The embedding that stands for a prototype; `one` is the quality 1.0.
  pseudo : F → ℕ → EmbeddingOrigin → SpeakerPrototype V F → SpeakerEmbedding V F
  pseudo one minimum_speech_ms origin p = record {
    vector = p.centroid;
    model_version = p.model_version;
    quality = one;
    speech_duration_ms = minimum_speech_ms;
    origin = origin;
    interval = none;
  }

  -- The prototypes of the speakers that are not provisional.
  unfoldable pub global_prototypes : List (SessionSpeaker V F) → List (SpeakerPrototype V F)
  unfolding is_state
  global_prototypes [] = []
  global_prototypes (k ∷ ks) =
      let rest = global_prototypes ks in
      if is_state (speaker_state k) IdentityState.provisional
      then rest
      else elim k.prototype [ none ↦ rest | some p ↦ p ∷ rest ]

  -- A speaker of the list, as it is now.
  unfoldable pub now_of : SessionSpeaker V F → Session V F → SessionSpeaker V F
  now_of k s = elim (s.speakers k.session_speaker_id) [ none ↦ k | some now ↦ now ]

  unfoldable pub merge_if : Bool → String → String → Exec (Session V F) (Unit {0})
  merge_if false source target = pure tt
  merge_if true source target = do
    change ← merge source target "overlap_start_reconciliation"
    pure tt

  unfoldable pub reconcile_with : String → Option String → Exec (Session V F) (Unit {0})
  unfolding merge_if
  reconcile_with provisional none = pure tt
  reconcile_with provisional (some target) = do
    allowed ← can_merge provisional target
    merge_if allowed provisional target

  module _ (vectors : Linear V F) (num : Scores F) (solve : List (List F) → ℕ → Option ℕ) (one : F)
      (config : LinkingConfig F) where
    -- What the linking of a provisional speaker's prototype says.
    unfoldable pub target_for :
        List (SpeakerPrototype V F) → ℕ → Option (SpeakerPrototype V F) → Result (Option String)
    unfolding pseudo linked_to
    target_for prototypes minimum_speech_ms none = ok none
    target_for prototypes minimum_speech_ms (some p) =
        elim (link_sources vectors num solve (some (pseudo one minimum_speech_ms separated p) ∷ [])
          prototypes config [] [] false) [ err e ↦ err e | ok decisions ↦ linked_to decisions ]

    unfoldable pub reconcile_all :
        List (SpeakerPrototype V F) → List (SessionSpeaker V F) → Exec (Session V F) (Unit {0})
    unfolding reconcile_with target_for now_of
    reconcile_all prototypes [] = pure tt
    reconcile_all prototypes (k ∷ ks) = do
      target ← tries (λ s. target_for prototypes s.config.minimum_speech_ms (now_of k s).prototype)
      reconcile_with k.session_speaker_id target
      reconcile_all prototypes ks

    unfoldable pub reconcile_if_any :
        List (SpeakerPrototype V F) → List (SessionSpeaker V F) → Exec (Session V F) (Unit {0})
    unfolding reconcile_all
    reconcile_if_any [] ks = pure tt
    reconcile_if_any (p ∷ ps) ks = reconcile_all (p ∷ ps) ks

    unfoldable pub reconcile_temporary_speakers : Exec (Session V F) (Unit {0})
    unfolding reconcile_if_any global_prototypes
    reconcile_temporary_speakers = do
      prototypes ← reads (λ s. global_prototypes (active s))
      provisional ← reads provisional_speakers
      reconcile_if_any prototypes provisional

  -- The registry's answer, for a speaker that has a prototype.
  identified :
      F
      → (SpeakerEmbedding V F → Result VoiceIdDecision)
      → ℕ
      → Option (SpeakerPrototype V F)
      → Result (Option VoiceIdDecision)
  unfolding pseudo
  identified one identify minimum_speech_ms none = ok none
  identified one identify minimum_speech_ms (some p) =
      elim (identify (pseudo one minimum_speech_ms clean p)) [
        | err e ↦ err e
        | ok decision ↦ ok (some decision)
      ]

  decide_one : String → Option VoiceIdDecision → Exec (Session V F) (Unit {0})
  decide_one id none = pure tt
  decide_one id (some decision) = do change ← apply_voice_id id decision; pure tt

  decide_all :
      F
      → (SpeakerEmbedding V F → Result VoiceIdDecision)
      → List (SessionSpeaker V F)
      → Exec (Session V F) (Unit {0})
  unfolding identified now_of decide_one
  decide_all one identify [] = pure tt
  decide_all one identify (k ∷ ks) = do
    decision ←
        tries (λ s. identified one identify s.config.minimum_speech_ms (now_of k s).prototype)
    decide_one k.session_speaker_id decision
    decide_all one identify ks

  -- `OfflinePipeline.apply_voice_id`, with the registry, if there is one.
  unfoldable pub apply_voice_ids :
      F
      → Bool
      → Option (SpeakerEmbedding V F → Result VoiceIdDecision)
      → Exec (Session V F) (Unit {0})
  unfolding decide_all
  apply_voice_ids one enabled none = pure tt
  apply_voice_ids one false (some identify) = pure tt
  apply_voice_ids one true (some identify) = do
    speakers ← reads active
    decide_all one identify speakers
