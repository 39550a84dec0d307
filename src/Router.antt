-- ===== src/Router.antt =====
-- src/sastt/application/overlap_router.py and the count and separation types of
-- src/sastt/domain/speakers.py. A score is a float; the code only tests `>=` on it.
pub mod Backends
pub mod Estimates
pub mod Table
use speaker_attributed_stt.Errors.{unsupported_concurrency, ErrorCode}
use speaker_attributed_stt.Prelude.{
  ◌==◌, leb, any, ◌&&◌, String, if◌then◌else◌, ℕ, Bool, true, false, not, ◌||◌, Option, none, some,
  List, [], ◌∷◌, ◌++◌, ltb, max, min,
}

pub data CountMethod : Type 0 where
  fixed_two ts_vad diarization_activity multichannel_activity multidecoder_research unknown :
      CountMethod

pub record SourceCountEstimate (F : Type 0) : Type 0 where
  pub count : Option ℕ
  pub confidence : Option F
  pub method : CountMethod
  pub count_uncertain : Bool

pub record SourceQuality (F : Type 0) : Type 0 where
  pub speech_duration_ms : ℕ
  pub energy_ratio : Option F
  pub leakage_similarity : Option F
  pub residual_speech_ratio : Option F
  pub snr_db : Option F
  pub passed_gate : Bool
  pub reasons : List String

-- `SeparatedBatch`, with what is read from it here.
pub record SeparatedBatch (F : Type 0) : Type 0 where
  pub requested_source_count : ℕ
  pub estimated_source_count : Option ℕ
  pub source_quality : List (SourceQuality F)

abbrev pub warning_unsupported_concurrency : String
warning_unsupported_concurrency = "unsupported_concurrency"

abbrev pub warning_research_disabled : String
warning_research_disabled = "research_checkpoint_disabled"

abbrev pub warning_narrowband_beta : String
warning_narrowband_beta = "narrowband_beta"

abbrev pub warning_count_uncertain : String
warning_count_uncertain = "count_uncertain"

abbrev pub warning_separation_suspect : String
warning_separation_suspect = "separation_suspect"

pub data Route : Type 0 where
  direct_asr separate_two_source separate_three_source_beta mixture_asr_unsupported
        degraded_research_disabled separate_research_multidecoder multichannel_gss
        target_extraction :
      Route

pub record RouteDecision (F : Type 0) : Type 0 where
  pub route : Route
  pub requested_source_count : Option ℕ
  pub backend : Option String
  pub count : SourceCountEstimate F
  pub warnings : List String
  pub error_code : Option ErrorCode
  pub degraded : Bool

-- `route in {...}`
unfoldable pub is_separating : Route → Bool
is_separating separate_two_source = true
is_separating separate_three_source_beta = true
is_separating separate_research_multidecoder = true
is_separating Route.multichannel_gss = true
is_separating target_extraction = true
is_separating direct_asr = false
is_separating mixture_asr_unsupported = false
is_separating degraded_research_disabled = false

abbrev pub runs_separation : {F : Type 0} → RouteDecision F → Bool
runs_separation d = is_separating d.route

-- `CountingEvidence`, without the extras, which nothing reads.
pub record CountingEvidence (F : Type 0) : Type 0 where
  pub roster_active_speakers : Option ℕ
  pub roster_confidence : Option F
  pub diarization_active_speakers : Option ℕ
  pub multichannel_activity_speakers : Option ℕ
  pub multichannel_confidence : Option F
  pub research_estimate : Option ℕ
  pub research_confidence : Option F
  pub is_multichannel : Bool
  pub has_activity_guidance : Bool
  pub enrolled_targets : ℕ

-- What the router reads from the configuration.
pub record RouterConfig (F : Type 0) : Type 0 where
  pub minimum_confidence : F
  pub three_source_beta : Bool
  pub multichannel_gss : Bool
  pub mono_four_five_source_research : Bool
  pub target_speaker_extraction : Bool
  pub max_session_speakers : ℕ
  pub two_source_backend : String
  pub three_source_backend : String

abbrev more_than_requested : Option ℕ → ℕ → Bool
more_than_requested none requested = false
more_than_requested (some n) requested = ltb requested n

module _ {F : Type 0} where
  abbrev pub no_evidence : CountingEvidence F
  no_evidence = record {
    roster_active_speakers = none;
    roster_confidence = none;
    diarization_active_speakers = none;
    multichannel_activity_speakers = none;
    multichannel_confidence = none;
    research_estimate = none;
    research_confidence = none;
    is_multichannel = false;
    has_activity_guidance = false;
    enrolled_targets = 0;
  }

  abbrev pub estimate : Option ℕ → Option F → CountMethod → Bool → SourceCountEstimate F
  estimate count confidence method uncertain = record {
    count = count;
    confidence = confidence;
    method = method;
    count_uncertain = uncertain;
  }

  -- Evidence with a confidence: the estimate when there are both and the confidence reaches the
  -- minimum, and what follows otherwise.
  unfoldable pub confident_or :
      (F → F → Bool)
      → F
      → CountMethod
      → Option ℕ
      → Option F
      → SourceCountEstimate F
      → SourceCountEstimate F
  confident_or ge minimum method none confidence otherwise = otherwise
  confident_or ge minimum method (some n) none otherwise = otherwise
  confident_or ge minimum method (some n) (some c) otherwise =
      if ge c minimum then estimate (some n) (some c) method false else otherwise

  research_or : Bool → Option ℕ → Option F → SourceCountEstimate F → SourceCountEstimate F
  research_or false n confidence otherwise = otherwise
  research_or true none confidence otherwise = otherwise
  research_or true (some n) confidence otherwise =
      estimate (some n) confidence multidecoder_research false

  diarized_or_two : Option ℕ → SourceCountEstimate F
  diarized_or_two (some n) = estimate (some (max 1 n)) none diarization_activity true
  diarized_or_two none = estimate (some 2) none fixed_two true

  unfoldable pub estimate_source_count :
      (F → F → Bool) → CountingEvidence F → RouterConfig F → SourceCountEstimate F
  unfolding confident_or research_or diarized_or_two
  estimate_source_count ge e config =
      confident_or ge config.minimum_confidence ts_vad e.roster_active_speakers e.roster_confidence
        (confident_or ge config.minimum_confidence multichannel_activity
          e.multichannel_activity_speakers e.multichannel_confidence
          (research_or config.mono_four_five_source_research e.research_estimate
            e.research_confidence (diarized_or_two e.diarization_active_speakers)))

  abbrev decision :
      Route
      → Option ℕ
      → Option String
      → SourceCountEstimate F
      → List String
      → Option ErrorCode
      → Bool
      → RouteDecision F
  decision route requested backend count warnings code degraded = record {
    route = route;
    requested_source_count = requested;
    backend = backend;
    count = count;
    warnings = warnings;
    error_code = code;
    degraded = degraded;
  }

  -- Rows 3 and 4.
  route_three : SourceCountEstimate F → RouterConfig F → List String → RouteDecision F
  route_three count config warnings =
      if config.three_source_beta
      then decision separate_three_source_beta (some 3) (some config.three_source_backend) count
          (warnings ++ warning_narrowband_beta ∷ []) none false
      else decision mixture_asr_unsupported none none count
          (warnings ++ warning_unsupported_concurrency ∷ []) (some unsupported_concurrency) true

  -- Rows 5 and 6.
  route_four_or_five :
      ℕ
      → SourceCountEstimate F
      → RouterConfig F
      → CountingEvidence F
      → List String
      → RouteDecision F
  route_four_or_five k count config e warnings =
      if config.multichannel_gss && (e.is_multichannel && e.has_activity_guidance)
      then decision Route.multichannel_gss (some k) (some "gpu_gss") count warnings none false
      else if config.mono_four_five_source_research
      then decision separate_research_multidecoder (some k) (some "multidecoder_dprnn") count
          (warnings ++ warning_research_disabled ∷ []) none true
      else decision degraded_research_disabled none none count
          (warnings ++ warning_unsupported_concurrency ∷ warning_research_disabled ∷ [])
          (some unsupported_concurrency) true

  -- Row 7 and the end.
  route_many :
      SourceCountEstimate F → RouterConfig F → CountingEvidence F → List String → RouteDecision F
  route_many count config e warnings =
      if config.target_speaker_extraction && ltb 0 e.enrolled_targets
      then decision target_extraction (some (min e.enrolled_targets config.max_session_speakers))
          (some "wesep") count warnings none false
      else decision degraded_research_disabled none none count
          (warnings ++ warning_unsupported_concurrency ∷ []) (some unsupported_concurrency) true

  route_two : SourceCountEstimate F → RouterConfig F → List String → RouteDecision F
  route_two count config warnings =
      decision separate_two_source (some 2) (some config.two_source_backend) count warnings none
        false

  route_count :
      Option ℕ
      → SourceCountEstimate F
      → RouterConfig F
      → CountingEvidence F
      → List String
      → RouteDecision F
  unfolding route_two route_three route_four_or_five route_many
  route_count none count config e warnings = route_two count config warnings
  route_count (some k) count config e warnings =
      if leb k 2
      then route_two count config warnings
      else if k == 3
      then route_three count config warnings
      else if (k == 4) || (k == 5)
      then route_four_or_five k count config e warnings
      else route_many count config e warnings

  -- `evidence or CountingEvidence()`
  abbrev or_no_evidence : Option (CountingEvidence F) → CountingEvidence F
  or_no_evidence none = no_evidence
  or_no_evidence (some e) = e

  -- The region is not read.
  unfoldable pub route_overlap :
      SourceCountEstimate F → RouterConfig F → Option (CountingEvidence F) → Bool → RouteDecision F
  unfolding route_count
  route_overlap count config evidence osd_positive =
      let warnings : List String =
        if count.count_uncertain then warning_count_uncertain ∷ [] else [] in
      if not osd_positive
      then decision direct_asr none none count warnings none false
      else route_count count.count count config (or_no_evidence evidence) warnings

  unfoldable pub detect_separation_suspect : SeparatedBatch F → List String
  detect_separation_suspect batch =
      if more_than_requested batch.estimated_source_count batch.requested_source_count
        || any (λ q. not q.passed_gate) batch.source_quality
      then warning_separation_suspect ∷ []
      else []
