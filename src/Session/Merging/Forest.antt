-- ===== src/Session/Merging/Forest.antt =====
-- The merge links form a forest, so the loop of `get` ends at a speaker that is not merged.
use speaker_attributed_stt.Prelude.{
  ℕ, zero, suc, ◌+◌, ◌≤◌, ◌<◌, ◌≡◌, ap, ◌∙◌, String, true, Option, none, some, List, [], ◌∷◌, arith,
  str_eq, if◌then◌else◌, length, any,
}
use speaker_attributed_stt.Prelude.Dict.{Dict}
use speaker_attributed_stt.Errors.{ok}
use speaker_attributed_stt.Session.{SessionSpeaker, Session, is_merged, resolve, get}

module _ {V F : Type 0} where
  -- From the id at most `n` merge links lead to the speaker, which is not merged.
  pub data Resolves (d : Dict (SessionSpeaker V F)) (r : SessionSpeaker V F)
      : ℕ → String → Type 0 where
    done : (n : ℕ) (id : String) → d id ≡ some r → r.merged_into ≡ none → Resolves d r n id
    link :
        (n : ℕ) (id j : String) (p : SessionSpeaker V F)
        → d id ≡ some p
        → p.merged_into ≡ some j
        → Resolves d r n j
        → Resolves d r (suc n) id

  resolve-done :
      (rounds : ℕ) (d : Dict (SessionSpeaker V F)) (id : String) (p : SessionSpeaker V F)
      → d id ≡ some p
      → p.merged_into ≡ none
      → resolve (suc rounds) d id ≡ ok p
  unfolding resolve
  resolve-done rounds d id p e m = ground arith

  resolve-link :
      (rounds : ℕ) (d : Dict (SessionSpeaker V F)) (id j : String) (p : SessionSpeaker V F)
      → d id ≡ some p
      → p.merged_into ≡ some j
      → resolve (suc rounds) d id ≡ resolve rounds d j
  unfolding resolve
  resolve-link rounds d id j p e m = ground arith

  -- With a round more than the links, `resolve` returns the speaker.
  pub Resolves-resolve :
      (rounds : ℕ) (d : Dict (SessionSpeaker V F)) (r : SessionSpeaker V F) {n : ℕ} {id : String}
      → Resolves d r n id
      → n < rounds
      → resolve rounds d id ≡ ok r
  Resolves-resolve zero d r h lt = absurd (omega arith)
  Resolves-resolve (suc rounds) d r (done n id e m) lt = resolve-done rounds d id r e m
  Resolves-resolve (suc rounds) d r (link n id j p e m rest) lt =
      resolve-link rounds d id j p e m ∙ Resolves-resolve rounds d r rest (omega arith)

  pub Resolves-weaken :
      {d : Dict (SessionSpeaker V F)} {r : SessionSpeaker V F} {n : ℕ} {id : String} (m : ℕ)
      → Resolves d r n id
      → n ≤ m
      → Resolves d r m id
  Resolves-weaken m (done n id e free) le = done m id e free
  Resolves-weaken zero (link n id j p e m' rest) le = absurd (omega arith)
  Resolves-weaken (suc m) (link n id j p e m' rest) le =
      link m id j p e m' (Resolves-weaken m rest (omega arith))

  pub Resolves-free :
      {d : Dict (SessionSpeaker V F)} {r : SessionSpeaker V F} {n : ℕ} {id : String}
      → Resolves d r n id
      → r.merged_into ≡ none
  Resolves-free (done n id e m) = m
  Resolves-free (link n id j p e m rest) = Resolves-free rest

  pub Resolves-stored :
      {d : Dict (SessionSpeaker V F)} {r : SessionSpeaker V F} {n : ℕ} {id : String}
      → Resolves d r n id
      → (j : String) × (d j ≡ some r)
  Resolves-stored (done n id e m) = (id, e)
  Resolves-stored (link n id j p e m rest) = Resolves-stored rest

  abbrev pub merged_flag : Option (SessionSpeaker V F) → ℕ
  merged_flag none = 0
  merged_flag (some p) = if is_merged p then 1 else 0

  -- How many of the speakers are merged.
  unfoldable pub merged_count : Dict (SessionSpeaker V F) → List String → ℕ
  merged_count d [] = 0
  merged_count d (id ∷ ids) = merged_flag (d id) + merged_count d ids

  pub merged_count-le :
      (d : Dict (SessionSpeaker V F)) (ids : List String) → merged_count d ids ≤ length ids
  unfolding merged_count
  merged_count-le d [] = omega arith
  merged_count-le d (id ∷ ids) = ground (arith, merged_count-le d ids)

  -- Every speaker is stored under its own id and is in the order, and every chain of merges ends,
  -- after no more links than there are merged speakers.
  pub record IsForest (s : Session V F) : Type 0 where
    pub own :
        (id : String) (p : SessionSpeaker V F) → s.speakers id ≡ some p → p.session_speaker_id ≡ id
    pub listed :
        (id : String) (p : SessionSpeaker V F)
        → s.speakers id ≡ some p
        → any (str_eq id) s.order ≡ true
    pub ends :
        (id : String) (p : SessionSpeaker V F)
        → s.speakers id ≡ some p
        → (r : SessionSpeaker V F) × Resolves s.speakers r (merged_count s.speakers s.order) id

  pub stored_own :
      (s : Session V F) (r : SessionSpeaker V F)
      → IsForest s
      → (j : String) × (s.speakers j ≡ some r)
      → s.speakers r.session_speaker_id ≡ some r
  stored_own s r f (j, e) = ap s.speakers (f.own j r e) ∙ e

  -- In a session whose merge links form a forest, `get` returns for every registered id: a speaker
  -- that is not merged and is stored under its own id. The rounds that the model makes suffice.
  pub get_total :
      (s : Session V F) (id : String) (p : SessionSpeaker V F)
      → IsForest s
      → s.speakers id ≡ some p
      → (r : SessionSpeaker V F) × (get s id ≡ ok r)
        × (r.merged_into ≡ none)
        × (s.speakers r.session_speaker_id ≡ some r)
  unfolding get
  get_total s id p f e =
      let (r, chain) = f.ends id p e in
      (
        r,
        Resolves-resolve (suc (length s.order)) s.speakers r chain
            (omega (arith, merged_count-le s.speakers s.order)),
        Resolves-free chain,
        stored_own s r f (Resolves-stored chain),
      )
