-- ===== src/Config/Loaded.antt =====
-- src/sastt/config.py: what a configuration that `load_config` returned came through, and what it may
-- run.
use speaker_attributed_stt.Prelude.{
  String, Bool, Option, none, some, List, [], ◌∷◌, ◌≡◌, ◌⊎◌, refl, ap, sym, subst, ◌∙◌, inl, inr,
  str_eq, eq_iff, Bool-cases,
}
use speaker_attributed_stt.Prelude.Dict.{Dict, empty, put, has}
use speaker_attributed_stt.Errors.{Result, ok, err, ErrorCode, ◌>>◌, >>=-eq-ok}
use speaker_attributed_stt.Router.{SourceCountEstimate, CountingEvidence, route_overlap}
use speaker_attributed_stt.Config.{Environment, production, SasttConfig, router_config}
use speaker_attributed_stt.Config.Checks.{Floats, check_config}
use speaker_attributed_stt.Config.Gates.{ModelManifest, validate_for_environment}
use speaker_attributed_stt.Config.Overlay.{Items}
use speaker_attributed_stt.Config.Loading.{
  manifests_from, load_manifests, overridden, gated, wrapped, model_validate, load_config,
}
use speaker_attributed_stt.Config.Gating.{IsServable}
use speaker_attributed_stt.Config.Licences.{route_overlap-IsServed}

check-eq-ok :
    {A : Type 0} (check : Result (Unit {0})) (x y : A)
    → (check >> ok x) ≡ ok y
    → (check ≡ ok tt) × (x ≡ y)
check-eq-ok (err e) x y h = cc
check-eq-ok (ok passed) x y h = (refl, cc)

gated-eq-ok :
    {F : Type 0} (c config : SasttConfig F) (o : Option ErrorCode)
    → gated c o ≡ ok config
    → (c ≡ config) × (o ≡ none)
gated-eq-ok c config none h = (cc, refl)
gated-eq-ok c config (some code) h = cc

-- Each manifest is found under its backend.
abbrev IsKeyed : (ModelManifest → Type 0) → Dict ModelManifest → Type 0
IsKeyed Q manifests =
    (name : String) (m : ModelManifest) → manifests name ≡ some m → (m.backend ≡ name) × Q m

-- One of the files holds the manifest.
abbrev pub Among : ModelManifest → List (Result ModelManifest) → Type 0
Among m [] = ⊥
Among m (r ∷ files) = (r ≡ ok m) ⊎ Among m files

put-IsKeyed :
    (Q : ModelManifest → Type 0) (manifests : Dict ModelManifest) (m : ModelManifest)
    → IsKeyed Q manifests
    → Q m
    → IsKeyed Q (put manifests m.backend m)
unfolding put
put-IsKeyed Q manifests m h q name n found = elim (Bool-cases (str_eq m.backend name)) [
  | inl same ↦
      let k = rw same at found in
      let e = (eq_iff m.backend name).0 same in
      let f : m ≡ n = cc in (ap (λ m. m.backend) (sym f) ∙ e, subst Q f q)
  | inr other ↦ h name n (rw other at found)
]

manifests_from-IsKeyed :
    (Q : ModelManifest → Type 0) (files : List (Result ModelManifest))
    (manifests ms : Dict ModelManifest)
    → IsKeyed Q manifests
    → ((m : ModelManifest) → Among m files → Q m)
    → manifests_from files manifests ≡ ok ms
    → IsKeyed Q ms
unfolding manifests_from
manifests_from-IsKeyed Q [] manifests ms h all done = subst (IsKeyed Q) (let k = done in cc) h
manifests_from-IsKeyed Q (err e ∷ files) manifests ms h all done = absurd cc
manifests_from-IsKeyed Q (ok m ∷ files) manifests ms h all done =
    elim (Bool-cases (has manifests m.backend)) [
      | inl twice ↦ let k = rw twice at done in absurd cc
      | inr new ↦
          manifests_from-IsKeyed Q files (put manifests m.backend m) ms
            (put-IsKeyed Q manifests m h (all m (inl refl))) (λ n there. all n (inr there))
            (rw new at done)
    ]

load_manifests-IsKeyed :
    (files : List (Result ModelManifest)) (ms : Dict ModelManifest)
    → load_manifests files ≡ ok ms
    → IsKeyed (λ m. Among m files) ms
load_manifests-IsKeyed files ms =
    manifests_from-IsKeyed (λ m. Among m files) files empty ms (λ name m found. absurd cc)
      (λ m there. there)

wrapped-eq-ok : {A : Type 0} (r : Result A) (a : A) → wrapped r ≡ ok a → r ≡ ok a
unfolding wrapped
wrapped-eq-ok (err e) a h = cc
wrapped-eq-ok (ok b) a h = h

module _ {F L : Type 0} (fl : Floats F) (inherited : String → Bool)
    (convert : Items L → Result (SasttConfig F)) where
  -- What a configuration came through that `load_config` returned: the conversion of the overridden
  -- file, the checks, and the gate of the environment with the manifests.
  pub record IsLoaded (file overrides : Option (Items L)) (env : Result Environment)
      (files : List (Result ModelManifest)) (config : SasttConfig F) : Type 0 where
    pub raw : Items L
    pub environment : Environment
    pub manifests : Dict ModelManifest
    pub from_file : file ≡ some raw
    pub named : env ≡ ok environment
    pub read : load_manifests files ≡ ok manifests
    pub converted : convert (overridden raw overrides) ≡ ok config
    pub checked : check_config fl config ≡ ok tt
    pub passed : validate_for_environment inherited config environment manifests ≡ none

  model_validate-checked :
      (raw : Items L) (config : SasttConfig F)
      → model_validate fl inherited convert raw ≡ ok config
      → (convert raw ≡ ok config) × (check_config fl config ≡ ok tt)
  unfolding model_validate
  model_validate-checked raw config h =
      let (c, found, rest) = >>=-eq-ok (convert raw) _ (wrapped-eq-ok _ config h) in
      let (passed, same) = check-eq-ok (check_config fl c) c config rest in
      (found ∙ ap (λ c. ok c) same, subst (λ c. check_config fl c ≡ ok tt) same passed)

  pub load_config-IsLoaded :
      (file overrides : Option (Items L)) (env : Result Environment)
      (files : List (Result ModelManifest)) (config : SasttConfig F)
      → load_config fl inherited convert file overrides env files ≡ ok config
      → IsLoaded file overrides env files config
  unfolding load_config
  load_config-IsLoaded none overrides env files config h = absurd cc
  load_config-IsLoaded (some raw) overrides env files config h =
      let (c, valid, h1) =
        >>=-eq-ok (model_validate fl inherited convert (overridden raw overrides)) _ h in
      let (e, named, h2) = >>=-eq-ok env _ h1 in
      let (ms, read, h3) = >>=-eq-ok (load_manifests files) _ h2 in
      let (same, passed) = gated-eq-ok c config (validate_for_environment inherited c e ms) h3 in
      let (converted, checked) =
        model_validate-checked (overridden raw overrides) config (valid ∙ ap (λ c. ok c) same) in
      record {
        raw = raw;
        environment = e;
        manifests = ms;
        from_file = refl;
        named = named;
        read = read;
        converted = converted;
        checked = checked;
        passed = subst (λ c. validate_for_environment inherited c e ms ≡ none) same passed;
      }

  -- A configuration that `load_config` returned for the production environment: whatever the counts
  -- and the evidence, a separator that the router names is the backend of one of the manifest files,
  -- and that manifest is enabled, licensed for production, by its action or by its flag, and pinned
  -- to a revision or a digest.
  pub load_config-serves :
      (file overrides : Option (Items L)) (files : List (Result ModelManifest))
      (config : SasttConfig F) (count : SourceCountEstimate F)
      (evidence : Option (CountingEvidence F)) (osd_positive : Bool) (backend : String)
      → load_config fl inherited convert file overrides (ok production) files ≡ ok config
      → (route_overlap count (router_config config) evidence osd_positive).backend ≡ some backend
      → (m : ModelManifest) × Among m files × (m.backend ≡ backend) × IsServable inherited config m
  load_config-serves file overrides files config count evidence osd_positive backend h named =
      let loaded = load_config-IsLoaded file overrides (ok production) files config h in
      let here : loaded.environment ≡ production = (let k = loaded.named in cc) in
      let (m, found, servable) =
        route_overlap-IsServed inherited config loaded.manifests count evidence osd_positive backend
          (subst (λ e. validate_for_environment inherited config e loaded.manifests ≡ none) here
            loaded.passed)
          named in
      let (keyed, among) =
        load_manifests-IsKeyed files loaded.manifests loaded.read backend m found in
      (m, among, keyed, servable)
