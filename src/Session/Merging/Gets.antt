-- ===== src/Session/Merging/Gets.antt =====
-- What `get` returns on a forest: the end of the chain of merges.
use speaker_attributed_stt.Session.{
  key_error, err, ok, SessionSpeaker, speaker_at, resolve, get, Session,
}
use speaker_attributed_stt.Prelude.{
  subst, inr, inl, length, suc, arith, Option-cases, none, some, String, ◌≡◌,
}
use speaker_attributed_stt.Session.Merging.Forest.{
  merged_count-le, Resolves-resolve, merged_count, IsForest, Resolves, Resolves-free,
  Resolves-stored, stored_own,
}

module _ {V F : Type 0} where
  get-missing : (s : Session V F) (id : String) → s.speakers id ≡ none → get s id ≡ err key_error
  unfolding get resolve speaker_at
  get-missing s id e = ground arith

  pub get-free :
      (s : Session V F) (id : String) (r : SessionSpeaker V F)
      → s.speakers id ≡ some r
      → r.merged_into ≡ none
      → get s id ≡ ok r
  unfolding get
  get-free s id r e m =
      Resolves-resolve (suc (length s.order)) s.speakers r (Resolves.done 0 id e m) (omega arith)

  pub get-chain :
      (s : Session V F) (id : String) (r : SessionSpeaker V F)
      → Resolves s.speakers r (merged_count s.speakers s.order) id
      → get s id ≡ ok r
  unfolding get
  get-chain s id r chain =
      Resolves-resolve (suc (length s.order)) s.speakers r chain
        (omega (arith, merged_count-le s.speakers s.order))

  pub get_chain :
      (s : Session V F) (id : String) (r : SessionSpeaker V F)
      → IsForest s
      → get s id ≡ ok r
      → Resolves s.speakers r (merged_count s.speakers s.order) id
  get_chain s id r f e = elim (Option-cases (s.speakers id)) [
    | inl missing ↦ absurd (cc (get-missing s id missing))
    | inr (p, there) ↦
        let (q, chain) = f.ends id p there in
        let same : q ≡ r = cc (get-chain s id q chain) in
        subst (λ x. Resolves s.speakers x (merged_count s.speakers s.order) id) same chain
  ]

  pub get_free :
      (s : Session V F) (id : String) (r : SessionSpeaker V F)
      → IsForest s
      → get s id ≡ ok r
      → r.merged_into ≡ none
  get_free s id r f e = Resolves-free (get_chain s id r f e)

  pub get_stored :
      (s : Session V F) (id : String) (r : SessionSpeaker V F)
      → IsForest s
      → get s id ≡ ok r
      → s.speakers r.session_speaker_id ≡ some r
  get_stored s id r f e = stored_own s r f (Resolves-stored (get_chain s id r f e))

  -- The speaker that `get` returns is the one under its own id.
  pub get_own :
      (s : Session V F) (id : String) (r : SessionSpeaker V F)
      → IsForest s
      → get s id ≡ ok r
      → get s r.session_speaker_id ≡ ok r
  get_own s id r f e =
      get-free s r.session_speaker_id r (get_stored s id r f e) (get_free s id r f e)
