-- ===== src/Config/Settings.antt =====
-- src/sastt/config.py: what the startup gate asks of the settings themselves.
use speaker_attributed_stt.Prelude.{
  ◌≡◌, ◌≢◌, ◌↔◌, ◌⊎◌, inl, inr, refl, String, Bool, true, false, not, ◌&&◌, Option, none, some,
  arith, eq_iff, Option-cases, Bool-cases,
}
use speaker_attributed_stt.Transcript.{is_text}
use speaker_attributed_stt.Config.{CountDefault, VoiceIdConfig, SasttConfig, is_calibrated}
use speaker_attributed_stt.Config.Gates.{is_multidecoder}
use speaker_attributed_stt.Config.Gating.{IsGuarded}

pub is_multidecoder_iff :
    (d : CountDefault) → (is_multidecoder d ≡ true) ↔ (d ≡ CountDefault.multidecoder_research)
unfolding is_multidecoder
is_multidecoder_iff CountDefault.fixed_two = (λ h. absurd cc, λ h. absurd cc)
is_multidecoder_iff CountDefault.ts_vad = (λ h. absurd cc, λ h. absurd cc)
is_multidecoder_iff CountDefault.multichannel_activity = (λ h. absurd cc, λ h. absurd cc)
is_multidecoder_iff CountDefault.multidecoder_research = (λ h. refl, λ h. refl)
is_multidecoder_iff CountDefault.unknown = (λ h. absurd cc, λ h. absurd cc)

-- `if text`
pub is_text_iff :
    (o : Option String) → (is_text o ≡ true) ↔ ((s : String) × (o ≡ some s) × (s ≢ ""))
unfolding is_text
is_text_iff none = (λ h. absurd cc, λ h. absurd (let e = h.1 in cc))
is_text_iff (some s) = (
  λ h. (s, refl, ground (arith, eq_iff s "")),
  λ h. let (t, e, some_text) = h in let same : s ≡ t = cc in ground (arith, same, eq_iff s ""),
)

voice_checked : Bool → Bool → Bool → Bool
voice_checked enabled calibrated closed = enabled && (not calibrated && not closed)

voice_checked_iff :
    (enabled calibrated closed : Bool)
    → (voice_checked enabled calibrated closed ≡ false)
      ↔ ((enabled ≡ false) ⊎ ((calibrated ≡ true) ⊎ (closed ≡ true)))
unfolding voice_checked
voice_checked_iff false calibrated closed = (λ h. inl refl, λ h. refl)
voice_checked_iff true true closed = (λ h. inr (inl refl), λ h. refl)
voice_checked_iff true false true = (λ h. inr (inr refl), λ h. refl)
voice_checked_iff true false false = (
  λ h. absurd cc,
  λ h. absurd (elim h [ inl e ↦ cc | inr k ↦ elim k [ inl e ↦ cc | inr e ↦ cc ] ]),
)

module _ {F : Type 0} where
  -- The names of enrolled speakers are given with both thresholds, or only where the lack of them
  -- closes the match.
  abbrev FailsClosed : VoiceIdConfig F → Type 0
  FailsClosed v =
      (v.enabled ≡ false)
      ⊎ (((accept : F) × (margin : F) × (v.accept_threshold ≡ some accept)
            × (v.ambiguous_margin ≡ some margin))
          ⊎ (v.fail_closed_when_uncalibrated ≡ true))

  -- What production asks of the switches.
  pub record IsSafe (c : SasttConfig F) : Type 0 where
    pub separates_few : c.product.mono_four_five_source_research ≡ false
    pub counts_without_research :
        c.source_count.production_default ≢ CountDefault.multidecoder_research
    pub names_closed : FailsClosed c.voice_id

is_calibrated_iff :
    {F : Type 0} (v : VoiceIdConfig F)
    → (is_calibrated v ≡ true) ↔ (
        (accept : F) × (margin : F) × (v.accept_threshold ≡ some accept)
        × (v.ambiguous_margin ≡ some margin))
is_calibrated_iff v = (
  λ h. elim (Option-cases v.accept_threshold) [
    | inl gone ↦ absurd (let k = rw gone at h in cc)
    | inr (accept, at) ↦ elim (Option-cases v.ambiguous_margin) [
      | inl gone ↦ absurd (let k = rw (at, gone) at h in cc)
      | inr (margin, at') ↦ (accept, margin, at, at')
    ]
  ],
  λ h. let (accept, margin, at, at') = h in rw (at, at') refl,
)

module _ {F : Type 0} (c : SasttConfig F) where
  pub IsGuarded_iff : IsGuarded c ↔ IsSafe c
  unfolding voice_checked
  IsGuarded_iff =
      let voice =
        voice_checked_iff c.voice_id.enabled (is_calibrated c.voice_id)
          c.voice_id.fail_closed_when_uncalibrated in
      (
        λ g. record {
          separates_few = g.no_research;
          counts_without_research = λ e.
              let k = (is_multidecoder_iff c.source_count.production_default).1 e in
              let l = g.no_multidecoder in cc;
          names_closed = elim (voice.0 g.fails_closed) [
            | inl off ↦ inl off
            | inr k ↦ elim k [
              | inl known ↦ inr (inl ((is_calibrated_iff c.voice_id).0 known))
              | inr closed ↦ inr (inr closed)
            ]
          ];
        },
        λ s. record {
          no_research = s.separates_few;
          no_multidecoder = elim (Bool-cases (is_multidecoder c.source_count.production_default)) [
            | inl e ↦ absurd (
                s.counts_without_research
                  ((is_multidecoder_iff c.source_count.production_default).0 e))
            | inr e ↦ e
          ];
          fails_closed = voice.1 (elim s.names_closed [
            | inl off ↦ inl off
            | inr k ↦ elim k [
              | inl known ↦ inr (inl ((is_calibrated_iff c.voice_id).1 known))
              | inr closed ↦ inr (inr closed)
            ]
          ]);
        },
      )
