-- ===== src/Config/Gating.antt =====
-- src/sastt/config.py: the checks of the startup gate in production, one by one.
use speaker_attributed_stt.Prelude.{
  ◌≡◌, ◌↔◌, refl, sym, subst, ◌∙◌, String, Bool, true, false, not, ◌&&◌, ◌||◌, Option, none, some,
  List, [], ◌∷◌, All, arith,
}
use speaker_attributed_stt.Prelude.Dict.{Dict}
use speaker_attributed_stt.Errors.{ErrorCode}
use speaker_attributed_stt.Config.{production, SasttConfig, is_calibrated}
use speaker_attributed_stt.Config.Gates.{
  ModelManifest, is_denied, is_allowlisted, is_pinned, is_multidecoder, or_else, active_backends,
  flag_enabled, gate_backend, gate_backends, gate_production, validate_for_environment,
}

some-injective : {A : Type 0} {x y : A} → some x ≡ some y → x ≡ y
some-injective h = cc

or_else_iff :
    (first rest : Option ErrorCode) → (or_else first rest ≡ none) ↔ ((first ≡ none) × (rest ≡ none))
or_else_iff none rest = (λ h. (refl, h), λ h. h.1)
or_else_iff (some code) rest = (λ h. absurd cc, λ h. absurd (let k = h.0 in cc))

pub ↔-both {ℓ} : {A B C D E : Type ℓ} → A ↔ (B × C) → B ↔ D → C ↔ E → A ↔ (D × E)
↔-both f g k = (λ a. (g.0 (f.0 a).0, k.0 (f.0 a).1), λ h. f.1 (g.1 h.0, k.1 h.1))

module _ {F : Type 0} (c : SasttConfig F) where
  -- No research model is switched on, and the speakers' names fail closed.
  pub record IsGuarded : Type 0 where
    pub no_research : c.product.mono_four_five_source_research ≡ false
    pub no_multidecoder : is_multidecoder c.source_count.production_default ≡ false
    pub fails_closed :
        (c.voice_id.enabled
          && (not (is_calibrated c.voice_id) && not c.voice_id.fail_closed_when_uncalibrated))
        ≡ false

  gate_production_iff : (gate_production c ≡ none) ↔ IsGuarded
  unfolding gate_production
  gate_production_iff = (
    λ h. record {
      no_research = ground arith;
      no_multidecoder = ground arith;
      fails_closed = ground arith;
    },
    λ g. rw (g.no_research, g.no_multidecoder, g.fails_closed) refl,
  )

module _ {F : Type 0} (inherited : String → Bool) (c : SasttConfig F) where
  -- A release that may serve production traffic.
  pub record IsServable (m : ModelManifest) : Type 0 where
    pub enabled : m.enabled ≡ true
    pub not_denied : is_denied m.production_action ≡ false
    pub licensed :
        (is_allowlisted m.production_action || flag_enabled inherited c m.requires_flag) ≡ true
    pub pinned : is_pinned m ≡ true

  gate_manifest :
      (m : ModelManifest) → (gate_backend inherited production c (some m) ≡ none) ↔ IsServable m
  unfolding gate_backend is_pinned
  gate_manifest m = (
    λ h. record {
      enabled = ground arith;
      not_denied = ground arith;
      licensed = ground arith;
      pinned = ground arith;
    },
    λ s.
        let e = s.enabled in
        let d = s.not_denied in let l = s.licensed in let p = s.pinned in ground arith,
  )

module _ {F : Type 0} (inherited : String → Bool) (c : SasttConfig F)
    (manifests : Dict ModelManifest) where
  -- The backend has a manifest, and its release may serve.
  abbrev pub IsServed : String → Type 0
  IsServed backend = (m : ModelManifest) × (manifests backend ≡ some m) × IsServable inherited c m

  gate_backend_iff :
      (name : String) (o : Option ModelManifest)
      → manifests name ≡ o
      → (gate_backend inherited production c o ≡ none) ↔ IsServed name
  unfolding gate_backend
  gate_backend_iff name none missing = (λ h. cc, λ s. let (m, found, servable) = s in cc)
  gate_backend_iff name (some m) found = (
    λ h. (m, found, (gate_manifest inherited c m).0 h),
    λ s.
        let (m', found', servable) = s in
        (gate_manifest inherited c m).1
          (subst (IsServable inherited c) (some-injective (sym found' ∙ found)) servable),
  )

  abbrev pub IsListed : String × String → Type 0
  IsListed b = IsServed b.1

  gate_backends_iff :
      (bs : List (String × String))
      → (gate_backends inherited production c manifests bs ≡ none) ↔ All IsListed bs
  unfolding gate_backends
  gate_backends_iff [] = (λ h. tt, λ h. refl)
  gate_backends_iff (b ∷ bs) =
      ↔-both (or_else_iff _ _) (gate_backend_iff b.1 (manifests b.1) refl) (gate_backends_iff bs)

  -- The checks of production and of each backend together.
  pub gate_passes_iff :
      (validate_for_environment inherited c production manifests ≡ none)
      ↔ (IsGuarded c × All IsListed (active_backends c))
  unfolding validate_for_environment
  gate_passes_iff =
      ↔-both (or_else_iff _ _) (gate_production_iff c) (gate_backends_iff (active_backends c))
