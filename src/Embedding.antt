-- ===== src/Embedding.antt =====
-- src/sastt/domain/speakers.py: embeddings, prototypes and their similarity. A vector and a score
-- are numpy's; the model is generic in both and takes from numpy the operations that the code uses.
use speaker_attributed_stt.Prelude.{
  ℕ, ◌+◌, String, Bool, not, Option, none, some, List, [], ◌∷◌, ◌++◌, str_eq,
}
use speaker_attributed_stt.Errors.{Result, ok, value_error, raise_if, ◌>>=◌, ◌>>◌}
use speaker_attributed_stt.Audio.Interval.{TimeInterval}

-- Vectors `V` and scores `F`, with the operations of numpy and of Python's floats.
pub record Linear (V F : Type 0) : Type 0 where
  pub norm : V → F
  pub dot : V → V → F
  pub scale : V → F → V
  pub divide : V → F → V
  pub plus : V → V → V
  pub add : F → F → F
  pub is_zero : F → Bool
  pub lt : F → F → Bool

pub data EmbeddingOrigin : Type 0 where
  clean separated enrollment : EmbeddingOrigin

-- `SpeakerEmbedding`, with the fields that are read.
pub record SpeakerEmbedding (V F : Type 0) : Type 0 where
  pub vector : V
  pub model_version : String
  pub quality : F
  pub speech_duration_ms : ℕ
  pub origin : EmbeddingOrigin
  pub interval : Option TimeInterval

pub record SpeakerPrototype (V F : Type 0) : Type 0 where
  pub speaker_key : String
  pub centroid : V
  pub weight_sum : F
  pub model_version : String
  pub version : ℕ
  pub contributing_segments : List TimeInterval

abbrev segment_list : Option TimeInterval → List TimeInterval
segment_list none = []
segment_list (some i) = i ∷ []

module _ {V F : Type 0} (num : Linear V F) where
  unfoldable pub l2_normalize : V → Result V
  l2_normalize v = do
    raise_if (num.is_zero (num.norm v)) value_error
    ok (num.divide v (num.norm v))

  -- `cosine_similarity`
  unfoldable pub cosine_similarity : SpeakerEmbedding V F → SpeakerEmbedding V F → Result F
  cosine_similarity a b = do
    raise_if (not (str_eq a.model_version b.model_version)) value_error
    ok (num.dot a.vector b.vector)

  -- `SpeakerPrototype.from_embedding`
  unfoldable pub from_embedding : String → SpeakerEmbedding V F → Result (SpeakerPrototype V F)
  unfolding l2_normalize
  from_embedding speaker_key e = do
    centroid ← l2_normalize (num.scale e.vector e.quality)
    ok (record {
      speaker_key = speaker_key;
      centroid = centroid;
      weight_sum = e.quality;
      model_version = e.model_version;
      version = 1;
      contributing_segments = segment_list e.interval;
    })

  unfoldable pub updated_with :
      SpeakerPrototype V F → SpeakerEmbedding V F → Result (SpeakerPrototype V F)
  unfolding l2_normalize
  updated_with p e = do
    raise_if (not (str_eq e.model_version p.model_version)) value_error
    let weight_sum = num.add p.weight_sum e.quality
    let accumulated = num.plus (num.scale p.centroid p.weight_sum) (num.scale e.vector e.quality)
    centroid ← l2_normalize (num.divide accumulated weight_sum)
    ok (record p {
      centroid = centroid;
      weight_sum = weight_sum;
      version = p.version + 1;
      contributing_segments = p.contributing_segments ++ segment_list e.interval;
    })

  unfoldable pub similarity : SpeakerPrototype V F → SpeakerEmbedding V F → Result F
  similarity p e = do
    raise_if (not (str_eq e.model_version p.model_version)) value_error
    ok (num.dot p.centroid e.vector)
