-- ===== src/Session/Evidence/Gates.antt =====
-- What the gates of `update_prototype` let through, and what they leave alone.
use speaker_attributed_stt.Errors.{Result, err}
use speaker_attributed_stt.Exec.{continue, continue-eq-ok}
use speaker_attributed_stt.Session.{get, ok, SessionSpeaker, SessionConfig, Session}
use speaker_attributed_stt.Session.Evidence.{
  is_separated, PrototypeUpdate, refusal, update_prototype, is_low_margin, absorb, absorb_unless,
  separated_refusal,
}
use speaker_attributed_stt.Embedding.{SpeakerPrototype, SpeakerEmbedding, Linear}
use speaker_attributed_stt.Prelude.{
  inr, inl, ◌⊎◌, arith, true, refl, some, none, Bool, false, subst, Option, String, ◌≡◌,
}

module _ {V F : Type 0} (num : Linear V F) where
  absorb-accepted :
      (s s' : Session V F) (speaker : SessionSpeaker V F) (e : SpeakerEmbedding V F)
      (old : Option (SpeakerPrototype V F)) (u : PrototypeUpdate)
      → absorb num speaker e old s ≡ (ok u, s')
      → u.accepted ≡ true
  unfolding absorb
  absorb-accepted s s' speaker e none u h = ground arith
  absorb-accepted s s' speaker e (some old) u h = ground arith

  pub absorb_unless-cases :
      (s s' : Session V F) (speaker : SessionSpeaker V F) (e : SpeakerEmbedding V F)
      (refused_for : Option String) (u : PrototypeUpdate)
      → absorb_unless num speaker e refused_for s ≡ (ok u, s')
      → ((u.accepted ≡ false) × (s' ≡ s))
        ⊎ ((u.accepted ≡ true)
            × (refused_for ≡ none)
            × (absorb num speaker e speaker.prototype s ≡ (ok u, s')))
  unfolding absorb_unless
  absorb_unless-cases s s' speaker e none u h =
      inr (absorb-accepted s s' speaker e speaker.prototype u h, refl, h)
  absorb_unless-cases s s' speaker e (some reason) u h = inl (ground arith)

  -- A run of `update_prototype` that returns refuses, or gets past the gates and absorbs.
  pub update_prototype-run :
      (s s' : Session V F) (id : String) (e : SpeakerEmbedding V F) (margin : Option F)
      (passed : Bool) (u : PrototypeUpdate)
      → update_prototype num id e margin passed s ≡ (ok u, s')
      → (speaker : SessionSpeaker V F) × (get s id ≡ ok speaker)
        × (((u.accepted ≡ false) × (s' ≡ s))
            ⊎ ((u.accepted ≡ true)
                × (refusal num s speaker e margin passed ≡ none)
                × (absorb num speaker e speaker.prototype s ≡ (ok u, s'))))
  unfolding update_prototype
  update_prototype-run s s' id e margin passed u h =
      let (speaker, found, rest) =
        continue-eq-ok (get s id) (λ p t. absorb_unless num p e (refusal num t p e margin passed) t)
          s s' u h in
      (
        speaker,
        found,
        absorb_unless-cases s s' speaker e (refusal num s speaker e margin passed) u rest,
      )

  -- An embedding that `update_prototype` does not accept leaves the session as it was.
  pub update_prototype_refused :
      (s s' : Session V F) (id : String) (e : SpeakerEmbedding V F) (margin : Option F)
      (passed : Bool) (u : PrototypeUpdate)
      → update_prototype num id e margin passed s ≡ (ok u, s')
      → u.accepted ≡ false
      → s' ≡ s
  update_prototype_refused s s' id e margin passed u h refused_now =
      let (speaker, found, cases) = update_prototype-run s s' id e margin passed u h in
      elim cases [ inl (refused', same) ↦ same | inr (accepted', passes, ran) ↦ absurd cc ]

  refusal-none :
      (s : Session V F) (speaker : SessionSpeaker V F) (e : SpeakerEmbedding V F)
      (margin : Option F) (passed : Bool)
      → refusal num s speaker e margin passed ≡ none
      → is_separated e.origin ≡ true
      → separated_refusal num s.config margin passed ≡ none
  unfolding refusal
  refusal-none s speaker e margin passed h sep = ground arith

  separated_refusal-none :
      (config : SessionConfig F) (margin : Option F) (passed : Bool)
      → separated_refusal num config margin passed ≡ none
      → (config.update_from_separated_sources ≡ true)
        × (passed ≡ true)
        × (is_low_margin num config.ambiguous_margin margin ≡ false)
  unfolding separated_refusal
  separated_refusal-none config margin passed h = ground arith

  is_low_margin-false :
      (threshold margin : Option F)
      → is_low_margin num threshold margin ≡ false
      → (t : F) × (m : F) × (threshold ≡ some t) × (margin ≡ some m) × (num.lt m t ≡ false)
  unfolding is_low_margin
  is_low_margin-false none margin h = absurd cc
  is_low_margin-false (some t) none h = absurd cc
  is_low_margin-false (some t) (some m) h = (t, m, refl, refl, h)

  -- What the caller learns when the embedding was not taken.
  abbrev pub IsUnaccepted : Result PrototypeUpdate → Type 0
  IsUnaccepted (ok u) = u.accepted ≡ false
  IsUnaccepted (err error) = Unit

  -- The gates of a separated source.
  pub record IsPastGates (config : SessionConfig F) (margin : Option F) (passed : Bool)
      : Type 0 where
    pub enabled : config.update_from_separated_sources ≡ true
    pub good_quality : passed ≡ true
    pub threshold : F
    pub link : F
    pub configured : config.ambiguous_margin ≡ some threshold
    pub measured : margin ≡ some link
    pub wide_enough : num.lt link threshold ≡ false

  separated_refusal-IsPastGates :
      (config : SessionConfig F) (margin : Option F) (passed : Bool)
      → separated_refusal num config margin passed ≡ none
      → IsPastGates config margin passed
  separated_refusal-IsPastGates config margin passed h =
      let (flag, quality, margin_ok) = separated_refusal-none config margin passed h in
      let (t, m, et, em, enough) = is_low_margin-false config.ambiguous_margin margin margin_ok in
      record {
        enabled = flag;
        good_quality = quality;
        threshold = t;
        link = m;
        configured = et;
        measured = em;
        wide_enough = enough;
      }

  -- The run stopped before it wrote anything, or the gates were passed.
  Guarded : Session V F → Option F → Bool → Result PrototypeUpdate × Session V F → Type 0
  Guarded s margin passed (r, s') = ((s' ≡ s) × IsUnaccepted r) ⊎ IsPastGates s.config margin passed

  absorb_unless-Guarded :
      (s : Session V F) (speaker : SessionSpeaker V F) (e : SpeakerEmbedding V F)
      (margin : Option F) (passed : Bool) (refused_for : Option String)
      → refusal num s speaker e margin passed ≡ refused_for
      → is_separated e.origin ≡ true
      → Guarded s margin passed (absorb_unless num speaker e refused_for s)
  unfolding absorb_unless Guarded
  absorb_unless-Guarded s speaker e margin passed (some reason) h sep = inl (refl, refl)
  absorb_unless-Guarded s speaker e margin passed none h sep = inr (
      separated_refusal-IsPastGates s.config margin passed
        (refusal-none s speaker e margin passed h sep))

  found-Guarded :
      (s : Session V F) (e : SpeakerEmbedding V F) (margin : Option F) (passed : Bool)
      (o : Result (SessionSpeaker V F))
      → is_separated e.origin ≡ true
      → Guarded s margin passed (
          continue o
            (λ speaker t. absorb_unless num speaker e (refusal num t speaker e margin passed) t)
            s)
  unfolding Guarded
  found-Guarded s e margin passed (err error) sep = inl (refl, tt)
  found-Guarded s e margin passed (ok speaker) sep =
      absorb_unless-Guarded s speaker e margin passed (refusal num s speaker e margin passed) refl
        sep

  -- However `update_prototype` ends on an embedding of a separated source, by an exception too,
  -- either it changed nothing in the session and did not accept the embedding, or all of this held:
  -- the configuration lets separated sources update prototypes, the quality of the source passed,
  -- and there are a configured threshold and a margin that is not below it.
  pub update_prototype_separated :
      (s s' : Session V F) (id : String) (e : SpeakerEmbedding V F) (margin : Option F)
      (passed : Bool) (r : Result PrototypeUpdate)
      → update_prototype num id e margin passed s ≡ (r, s')
      → is_separated e.origin ≡ true
      → ((s' ≡ s) × IsUnaccepted r) ⊎ IsPastGates s.config margin passed
  unfolding update_prototype Guarded
  update_prototype_separated s s' id e margin passed r h sep =
      subst (Guarded s margin passed) h (found-Guarded s e margin passed (get s id) sep)
