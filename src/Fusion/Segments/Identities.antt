-- ===== src/Fusion/Segments/Identities.antt =====
-- Which speakers `fuse` can make a segment of.
use speaker_attributed_stt.Identity.{IdentityStatus}
use speaker_attributed_stt.Fusion.{Utterance}
use speaker_attributed_stt.Errors.{schema_invariant_error, err}
use speaker_attributed_stt.Session.{or_text, SessionSpeaker, public_speaker_id}
use speaker_attributed_stt.Fusion.Segments.{
  status, str_eq, segment_of, Bool, String, FusionSettings,
}
use speaker_attributed_stt.Transcript.{is_enrolled, TranscriptSegment, validate}
use speaker_attributed_stt.Prelude.{◌∙◌, ap, arith, false, ◌≡◌, some, refl}

module _ {F : Type 0} where
  fallback-rejected :
      (in_unit : F → Bool) (g : TranscriptSegment F)
      → is_enrolled g.identity_status ≡ false
      → str_eq g.speaker_id g.session_speaker_id ≡ false
      → validate in_unit g ≡ err schema_invariant_error
  unfolding validate
  fallback-rejected in_unit g status_is differs = ground arith

or_text-given : (a b : String) → str_eq a "" ≡ false → or_text (some a) b ≡ a
or_text-given a b h = rw h refl

module _ {V F : Type 0} where
  public_differs :
      (speaker : SessionSpeaker V F) (registry_id : String)
      → speaker.registry_speaker_id ≡ some registry_id
      → str_eq registry_id "" ≡ false
      → str_eq registry_id speaker.session_speaker_id ≡ false
      → str_eq (public_speaker_id speaker) speaker.session_speaker_id ≡ false
  unfolding public_speaker_id
  public_differs speaker registry_id held given differs =
      ap (λ o. str_eq (or_text o speaker.session_speaker_id) speaker.session_speaker_id) held
      ∙ ap (λ i. str_eq i speaker.session_speaker_id)
          (or_text-given registry_id speaker.session_speaker_id given)
      ∙ differs

module _ {V F : Type 0} (settings : FusionSettings F) (strip : String → String) where
  -- The segment of a speaker whose public status is ambiguous and that has a registry id, not empty
  -- and other than its session id, is refused with a schema error, whatever was said.
  pub contradicted_speaker_rejected :
      (speaker : SessionSpeaker V F) (u : Utterance F) (event_id registry_id : String)
      → status speaker.machine ≡ IdentityStatus.ambiguous
      → speaker.registry_speaker_id ≡ some registry_id
      → str_eq registry_id "" ≡ false
      → str_eq registry_id speaker.session_speaker_id ≡ false
      → validate settings.in_unit (segment_of settings strip speaker u event_id)
        ≡ err schema_invariant_error
  unfolding segment_of is_enrolled public_speaker_id
  contradicted_speaker_rejected speaker u event_id registry_id ambiguous_now held given differs =
      fallback-rejected settings.in_unit (segment_of settings strip speaker u event_id)
        (ap is_enrolled ambiguous_now) (public_differs speaker registry_id held given differs)
