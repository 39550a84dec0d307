-- ===== src/Session/Evidence.antt =====
-- src/sastt/application/session_state.py and src/sastt/domain/speakers.py: the voice evidence of a
-- session speaker, its prototype, and how an embedding changes it.
pub mod Gates
pub mod Rollback
use speaker_attributed_stt.Session.{
  speaker_state, get, write, SessionSpeaker, SessionConfig, Session,
}
use speaker_attributed_stt.Prelude.{
  str_eq, if◌then◌else◌, String, ℕ, Bool, true, false, not, ◌||◌, Option, none, some, List, [], ◌∷◌,
  ◌++◌, ltb,
}
use speaker_attributed_stt.Exec.{Exec, pure, lift, reads, tries, modify, ◌>>=◌, ◌>>◌}
use speaker_attributed_stt.Identity.{IdentityState, is_state}
use speaker_attributed_stt.Embedding.{
  Linear, SpeakerEmbedding, EmbeddingOrigin, SpeakerPrototype, from_embedding, updated_with,
}

abbrev pub reason_too_short : String
reason_too_short = "speech_shorter_than_minimum"

abbrev pub reason_not_anonymous : String
reason_not_anonymous = "identity_not_resolved"

abbrev pub reason_separated_disabled : String
reason_separated_disabled = "separated_updates_disabled"

abbrev pub reason_low_source_quality : String
reason_low_source_quality = "source_quality_gate"

abbrev pub reason_low_link_margin : String
reason_low_link_margin = "link_margin_gate"

abbrev pub reason_model_mismatch : String
reason_model_mismatch = "embedding_model_mismatch"

abbrev pub reason_updated : String
reason_updated = "updated"

abbrev pub reason_created : String
reason_created = "created"

pub record PrototypeUpdate : Type 0 where
  pub accepted : Bool
  pub reason : String
  pub speaker_id : Option String
  pub version : Option ℕ

unfoldable pub is_separated : EmbeddingOrigin → Bool
is_separated EmbeddingOrigin.separated = true
is_separated EmbeddingOrigin.clean = false
is_separated EmbeddingOrigin.enrollment = false

module _ {A : Type 0} where
  -- `xs.pop()`: the list without its last element, and that element.
  unfoldable pub pop : List A → Option (List A × A)
  pop [] = none
  pop (x ∷ xs) = elim (pop xs) [ none ↦ some ([], x) | some (rest, last) ↦ some (x ∷ rest, last) ]

module _ {V F : Type 0} where
  restored :
      SessionSpeaker V F
      → Option (List (SpeakerPrototype V F) × SpeakerPrototype V F)
      → SessionSpeaker V F
  restored speaker none = speaker
  restored speaker (some (rest, last)) = record speaker {
    prototype = some last;
    prototype_history = rest;
  }

  unfoldable pub rollback_prototype : SessionSpeaker V F → SessionSpeaker V F
  unfolding pop restored
  rollback_prototype speaker = restored speaker (pop speaker.prototype_history)

  -- An early return of the two updates below.
  abbrev pub refused : String → SessionSpeaker V F → PrototypeUpdate
  refused reason speaker = record {
    accepted = false;
    reason = reason;
    speaker_id = some speaker.session_speaker_id;
    version = none;
  }

  abbrev pub accepted_as : String → SessionSpeaker V F → SpeakerPrototype V F → PrototypeUpdate
  accepted_as reason speaker p = record {
    accepted = true;
    reason = reason;
    speaker_id = some speaker.session_speaker_id;
    version = some p.version;
  }

module _ {V F : Type 0} (num : Linear V F) where
  -- `margin_threshold is None or link_margin is None or link_margin < margin_threshold`
  unfoldable pub is_low_margin : Option F → Option F → Bool
  is_low_margin none link_margin = true
  is_low_margin (some threshold) none = true
  is_low_margin (some threshold) (some margin) = num.lt margin threshold

  -- The gates of a separated source.
  unfoldable pub separated_refusal : SessionConfig F → Option F → Bool → Option String
  unfolding is_low_margin
  separated_refusal config link_margin source_quality_passed =
      if not config.update_from_separated_sources
      then some reason_separated_disabled
      else if not source_quality_passed
      then some reason_low_source_quality
      else if is_low_margin config.ambiguous_margin link_margin
      then some reason_low_link_margin
      else none

  -- The first gate of `update_prototype` that refuses the embedding.
  unfoldable pub refusal :
      Session V F → SessionSpeaker V F → SpeakerEmbedding V F → Option F → Bool → Option String
  unfolding separated_refusal is_separated is_state
  refusal s speaker e link_margin source_quality_passed =
      if not (str_eq e.model_version s.embedding_model_version)
      then some reason_model_mismatch
      else if ltb e.speech_duration_ms s.config.minimum_speech_ms
      then some reason_too_short
      else if is_state (speaker_state speaker) IdentityState.unknown
          || is_state (speaker_state speaker) IdentityState.ambiguous
      then some reason_not_anonymous
      else if is_separated e.origin
      then separated_refusal s.config link_margin source_quality_passed
      else none

  -- The end of both updates. The old prototype joins the history before the new one is computed.
  unfoldable pub absorb :
      SessionSpeaker V F
      → SpeakerEmbedding V F
      → Option (SpeakerPrototype V F)
      → Exec (Session V F) PrototypeUpdate
  unfolding from_embedding
  absorb speaker e none = do
    p ← lift (from_embedding num speaker.session_speaker_id e)
    modify (λ s. write s (record speaker { prototype = some p }))
    pure (accepted_as reason_created speaker p)
  absorb speaker e (some old) = do
    let kept : SessionSpeaker V F = record speaker {
      prototype_history = speaker.prototype_history ++ old ∷ [];
    }
    modify (λ s. write s kept)
    p ← lift (updated_with num old e)
    modify (λ s. write s (record kept { prototype = some p }))
    pure (accepted_as reason_updated speaker p)

  unfoldable pub absorb_unless :
      SessionSpeaker V F → SpeakerEmbedding V F → Option String → Exec (Session V F) PrototypeUpdate
  unfolding absorb
  absorb_unless speaker e none = absorb speaker e speaker.prototype
  absorb_unless speaker e (some reason) = pure (refused reason speaker)

  unfoldable pub update_prototype :
      String → SpeakerEmbedding V F → Option F → Bool → Exec (Session V F) PrototypeUpdate
  unfolding refusal absorb_unless
  update_prototype id e link_margin source_quality_passed = do
    speaker ← tries (λ s. get s id)
    refused_for ← reads (λ s. refusal s speaker e link_margin source_quality_passed)
    absorb_unless speaker e refused_for

  -- The first gate of `buffer_provisional_embedding` that refuses the embedding.
  unfoldable pub buffer_refusal :
      Session V F → SessionSpeaker V F → SpeakerEmbedding V F → Option String
  unfolding is_state
  buffer_refusal s speaker e =
      if not (is_state (speaker_state speaker) IdentityState.provisional)
      then some reason_not_anonymous
      else if not (str_eq e.model_version s.embedding_model_version)
      then some reason_model_mismatch
      else if ltb e.speech_duration_ms s.config.minimum_speech_ms
      then some reason_too_short
      else none

  unfoldable pub buffer_provisional_embedding :
      String → SpeakerEmbedding V F → Exec (Session V F) PrototypeUpdate
  unfolding buffer_refusal absorb_unless
  buffer_provisional_embedding id e = do
    speaker ← tries (λ s. get s id)
    refused_for ← reads (λ s. buffer_refusal s speaker e)
    absorb_unless speaker e refused_for
