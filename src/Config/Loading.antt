-- ===== src/Config/Loading.antt =====
-- src/sastt/config.py: `load_config`. The file's contents, the manifests on disk, the conversion of a
-- dict to typed sections and lower case are parameters.
use speaker_attributed_stt.Prelude.{
  String, Bool, Option, none, some, List, [], ◌∷◌, str_eq, if◌then◌else◌,
}
use speaker_attributed_stt.Prelude.Dict.{Dict, empty, put, has}
use speaker_attributed_stt.Errors.{Result, ok, err, ErrorCode, configuration_error, ◌>>=◌, ◌>>◌}
use speaker_attributed_stt.Config.{Environment, development, staging, production, SasttConfig}
use speaker_attributed_stt.Config.Checks.{Floats, check_config}
use speaker_attributed_stt.Config.Gates.{ModelManifest, validate_for_environment}
use speaker_attributed_stt.Config.Overlay.{Items, deep_merge}

-- An environment, or a text that names one.
pub data Named : Type 0 where
  given : Environment → Named
  named_by : String → Named

-- `Environment(raw)`
unfoldable pub environment_of : String → Result Environment
environment_of raw =
    if str_eq raw "development"
    then ok development
    else if str_eq raw "staging"
    then ok staging
    else if str_eq raw "production"
    then ok production
    else err configuration_error

-- `a or b` on texts that may be missing.
abbrev first_text : Option String → String → String
first_text none other = other
first_text (some a) other = if str_eq a "" then other else a

-- `lower` is `str.lower`, and `variable` what `SASTT_ENV` holds.
unfoldable pub resolve_environment :
    (String → String) → Option String → Option Named → Result Environment
unfolding environment_of
resolve_environment lower variable (some (given e)) = ok e
resolve_environment lower variable (some (named_by raw)) =
    environment_of (lower (first_text (some raw) (first_text variable "development")))
resolve_environment lower variable none = environment_of (lower (first_text variable "development"))

-- The loop of `load_manifests` over the files in their order, each parsed or refused: a backend of
-- two files is an error.
unfoldable pub manifests_from :
    List (Result ModelManifest) → Dict ModelManifest → Result (Dict ModelManifest)
manifests_from [] manifests = ok manifests
manifests_from (err e ∷ files) manifests = err configuration_error
manifests_from (ok m ∷ files) manifests =
    let rest = manifests_from files (put manifests m.backend m) in
    if has manifests m.backend then err configuration_error else rest

-- `load_manifests`; a directory that does not exist has no files.
abbrev pub load_manifests : List (Result ModelManifest) → Result (Dict ModelManifest)
load_manifests files = manifests_from files empty

-- What follows the file: the checks, and then the gate of the environment.
abbrev pub gated : {F : Type 0} → SasttConfig F → Option ErrorCode → Result (SasttConfig F)
gated config none = ok config
gated config (some code) = err configuration_error

-- `_deep_merge(raw, overrides)`, if there are overrides; an empty dict counts as none.
abbrev pub overridden : {L : Type 0} → Items L → Option (Items L) → Items L
overridden raw none = raw
overridden raw (some overrides) = deep_merge raw overrides

-- `except Exception as exc: raise ConfigurationError`
unfoldable pub wrapped : {A : Type 0} → Result A → Result A
wrapped (err e) = err configuration_error
wrapped (ok a) = ok a

module _ {F L : Type 0} (fl : Floats F) (inherited : String → Bool)
    (convert : Items L → Result (SasttConfig F)) where
  -- Conversion and checks.
  unfoldable pub model_validate : Items L → Result (SasttConfig F)
  unfolding wrapped
  model_validate raw = wrapped (convert raw >>= λ config. check_config fl config >> ok config)

  -- `file` is the dict of the file, if the file exists, and `files` the manifests.
  unfoldable pub load_config :
      Option (Items L)
      → Option (Items L)
      → Result Environment
      → List (Result ModelManifest)
      → Result (SasttConfig F)
  unfolding model_validate
  load_config none overrides env files = err configuration_error
  load_config (some raw) overrides env files =
      model_validate (overridden raw overrides) >>= λ config. env >>= λ e.
      load_manifests files >>= λ manifests.
      gated config (validate_for_environment inherited config e manifests)
