-- ===== src/Session/Resolution/VoiceId.antt =====
-- What a Voice ID decision does to a speaker.
use speaker_attributed_stt.Session.Merging.{stepped}
use speaker_attributed_stt.Prelude.Dict.{put_self}
use speaker_attributed_stt.Identity.{
  can_transition, Machine, transition, allowed_transitions, is_allowed, is_state, IdentityStatus,
  IdentityState, moved, public_status, status,
}
use speaker_attributed_stt.Session.{write, ok, get, Session, public_speaker_id, SessionSpeaker}
use speaker_attributed_stt.Session.Resolution.{
  doubt_voice, uncalibrated, VoiceIdStatus, VoiceIdDecision, decide_voice, apply_voice_id,
}
use speaker_attributed_stt.Prelude.{true, ◌∙◌, ap, refl, inr, inl, some, none, ◌⊎◌, String, ◌≡◌}

allowed-stepped :
    (m : Machine) (to : IdentityState) (reason : String)
    → is_allowed m.state to ≡ true
    → stepped m to reason ≡ ok (moved m to reason)
unfolding stepped transition can_transition
allowed-stepped m to reason e = rw e refl

enrolled-stepped :
    (m : Machine) (reason : String)
    → m.state ≡ IdentityState.enrolled
    → stepped m IdentityState.ambiguous reason ≡ ok (moved m IdentityState.ambiguous reason)
unfolding is_allowed allowed_transitions is_state
enrolled-stepped m reason e =
    allowed-stepped m IdentityState.ambiguous reason
      (ap (λ q. is_allowed q IdentityState.ambiguous) e)

module _ {V F : Type 0} where
  -- A decision `unknown` or `uncalibrated` about a speaker that `get` finds changes nothing.
  pub apply_voice_id_fallback :
      (s : Session V F) (id : String) (decision : VoiceIdDecision) (speaker : SessionSpeaker V F)
      → get s id ≡ ok speaker
      → (decision.status ≡ VoiceIdStatus.unknown) ⊎ (decision.status ≡ uncalibrated)
      → apply_voice_id id decision s ≡ (ok none, s)
  unfolding apply_voice_id decide_voice
  apply_voice_id_fallback s id decision speaker found (inl e) = rw (found, e) refl
  apply_voice_id_fallback s id decision speaker found (inr e) = rw (found, e) refl

  doubted : SessionSpeaker V F → SessionSpeaker V F
  doubted speaker = record speaker {
    machine = moved speaker.machine IdentityState.ambiguous "voice_id_contradiction";
  }

  decided :
      (s : Session V F) (id : String) (decision : VoiceIdDecision) (speaker : SessionSpeaker V F)
      → get s id ≡ ok speaker
      → decision.status ≡ VoiceIdStatus.ambiguous
      → is_state speaker.machine.state IdentityState.enrolled ≡ true
      → apply_voice_id id decision s ≡ doubt_voice true speaker s
  unfolding apply_voice_id decide_voice
  decided s id decision speaker found e is = rw (found, e, is) refl

  doubt_voice-eq :
      (s : Session V F) (speaker : SessionSpeaker V F)
      → stepped speaker.machine IdentityState.ambiguous "voice_id_contradiction"
        ≡ ok (moved speaker.machine IdentityState.ambiguous "voice_id_contradiction")
      → doubt_voice true speaker s ≡ (ok none, write s (doubted speaker))
  unfolding doubt_voice doubted
  doubt_voice-eq s speaker e = rw e refl

  -- An `ambiguous` decision about an enrolled speaker makes its public status ambiguous, and leaves
  -- its registry id in place, so the public id of the speaker stays what it was.
  pub contradicted_keeps_public_id :
      (s : Session V F) (id : String) (decision : VoiceIdDecision) (speaker : SessionSpeaker V F)
      → get s id ≡ ok speaker
      → decision.status ≡ VoiceIdStatus.ambiguous
      → speaker.machine.state ≡ IdentityState.enrolled
      → (s' : Session V F) × (after : SessionSpeaker V F) × (apply_voice_id id decision s
          ≡ (ok none, s'))
        × (s'.speakers speaker.session_speaker_id ≡ some after)
        × (status after.machine ≡ IdentityStatus.ambiguous)
        × (public_speaker_id after ≡ public_speaker_id speaker)
  unfolding doubted status public_status public_speaker_id is_state
  contradicted_keeps_public_id s id decision speaker found e at =
      let run : apply_voice_id id decision s ≡ (ok none, write s (doubted speaker)) =
        decided s id decision speaker found e (ap (λ q. is_state q IdentityState.enrolled) at)
        ∙ doubt_voice-eq s speaker (enrolled-stepped speaker.machine "voice_id_contradiction" at) in
      (
        write s (doubted speaker),
        doubted speaker,
        run,
        put_self s.speakers speaker.session_speaker_id (doubted speaker),
        refl,
        refl,
      )
