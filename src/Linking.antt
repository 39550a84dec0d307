-- ===== src/Linking.antt =====
-- src/sastt/application/source_linking.py: separated sources are assigned to session speakers. An
-- entry of the score matrix is a float or minus infinity, which is `none`; the solver of the
-- assignment problem is scipy's and a parameter.
pub mod Matrices
pub mod Deciding
pub mod Linker
pub mod Decisions
pub mod Links
use speaker_attributed_stt.Prelude.{
  if◌then◌else◌, String, ℕ, zero, suc, ◌+◌, Bool, true, false, not, ◌||◌, ◌&&◌, Option, none, some,
  List, [], ◌∷◌, ◌++◌, ltb, leb, ◌==◌, map, filter, any, all, length, get_elem?, str_eq,
}
use speaker_attributed_stt.Prelude.Sort.{sorted}
use speaker_attributed_stt.Errors.{Result, ok, err, ◌>>=◌}
use speaker_attributed_stt.Embedding.{Linear, SpeakerEmbedding, SpeakerPrototype, similarity}

-- The floats' operations that the code uses.
pub record Scores (F : Type 0) : Type 0 where
  pub lt : F → F → Bool
  pub plus : F → F → F
  pub minus : F → F → F
  pub nought : F
  pub one : F

abbrev pub Matrix : Type 0 → Type 0
Matrix F = List (List (Option F))

-- src/sastt/config.py: `SourceLinkingConfig`, with what is read here.
pub record LinkingConfig (F : Type 0) : Type 0 where
  pub accept_threshold : Option F
  pub ambiguous_margin : Option F
  pub continuity_bonus : F

pub data LinkStatus : Type 0 where
  linked ambiguous unknown uncalibrated : LinkStatus

-- src/sastt/domain/speakers.py: `LinkingDecision`. A score that is given may be minus infinity.
pub record LinkingDecision (F : Type 0) : Type 0 where
  pub source_track : ℕ
  pub session_speaker_id : Option String
  pub status : LinkStatus
  pub score : Option (Option F)
  pub margin : Option F
  pub reason : String

abbrev pub is_missing : {F : Type 0} → Option F → Bool
is_missing none = true
is_missing (some s) = false
