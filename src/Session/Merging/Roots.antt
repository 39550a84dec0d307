-- ===== src/Session/Merging/Roots.antt =====
-- A merge keeps the forest, and leads every id of the source to the target.
use speaker_attributed_stt.Prelude.{
  sym, Option, ◌||◌, ◌<◌, ◌≤◌, List, [], ◌∷◌, any, true, arith, Bool-cases, ap, ℕ, suc, ◌≡◌, refl,
  subst, ◌∙◌, String, false, ◌⊎◌, inl, inr, none, some, str_eq, eq_iff,
}
use speaker_attributed_stt.Prelude.Dict.{Dict, put, put_self, put_other}
use speaker_attributed_stt.Session.{SessionSpeaker}
use speaker_attributed_stt.Session.Merging.Forest.{merged_flag, merged_count, Resolves}

module _ {V F : Type 0} where
  -- Where a chain ended before the merge, and where it ends after it.
  unfoldable pub Moves :
      SessionSpeaker V F
      → SessionSpeaker V F
      → SessionSpeaker V F
      → SessionSpeaker V F
      → SessionSpeaker V F
      → Type 0
  Moves source target target' r r' =
      ((r ≡ source) × (r' ≡ target')) ⊎ (((r ≡ target) × (r' ≡ target')) ⊎ (r' ≡ r))

  flag_free :
      (o : Option (SessionSpeaker V F)) (p : SessionSpeaker V F)
      → o ≡ some p
      → p.merged_into ≡ none
      → merged_flag o ≡ 0
  flag_free none p e m = absurd cc
  flag_free (some q) p e m = let same : q ≡ p = cc in ground arith

  flag_linked :
      (o : Option (SessionSpeaker V F)) (p : SessionSpeaker V F) (j : String)
      → o ≡ some p
      → p.merged_into ≡ some j
      → merged_flag o ≡ 1
  flag_linked none p j e m = absurd cc
  flag_linked (some q) p j e m = let same : q ≡ p = cc in ground arith

module _ {V F : Type 0} (d : Dict (SessionSpeaker V F))
    (source target source' target' : SessionSpeaker V F)
    (at_source : d source.session_speaker_id ≡ some source)
    (free_source : source.merged_into ≡ none)
    (at_target : d target.session_speaker_id ≡ some target)
    (free_target : target.merged_into ≡ none)
    (distinct : str_eq target.session_speaker_id source.session_speaker_id ≡ false)
    (linked : source'.merged_into ≡ some target.session_speaker_id)
    (free' : target'.merged_into ≡ none) where
  abbrev joined : Dict (SessionSpeaker V F)
  joined = put (put d source.session_speaker_id source') target.session_speaker_id target'

  pub joined-target : joined target.session_speaker_id ≡ some target'
  joined-target =
      put_self (put d source.session_speaker_id source') target.session_speaker_id target'

  pub joined-source : joined source.session_speaker_id ≡ some source'
  joined-source =
      put_other (put d source.session_speaker_id source') target.session_speaker_id target'
        source.session_speaker_id distinct
      ∙ put_self d source.session_speaker_id source'

  joined-other :
      (id : String)
      → str_eq source.session_speaker_id id ≡ false
      → str_eq target.session_speaker_id id ≡ false
      → joined id ≡ d id
  joined-other id s t =
      put_other (put d source.session_speaker_id source') target.session_speaker_id target' id t
      ∙ put_other d source.session_speaker_id source' id s

  -- An id is the source's, the target's, or keeps what it had.
  pub joined-cases :
      (id : String)
      → (source.session_speaker_id ≡ id) ⊎ ((target.session_speaker_id ≡ id) ⊎ (joined id ≡ d id))
  joined-cases id = elim (Bool-cases (str_eq source.session_speaker_id id)) [
    | inl e ↦ inl ((eq_iff source.session_speaker_id id).0 e)
    | inr e ↦ elim (Bool-cases (str_eq target.session_speaker_id id)) [
      | inl f ↦ inr (inl ((eq_iff target.session_speaker_id id).0 f))
      | inr f ↦ inr (inr (joined-other id e f))
    ]
  ]

  pub target-Resolves : (n : ℕ) → Resolves joined target' n target.session_speaker_id
  target-Resolves n = Resolves.done n target.session_speaker_id joined-target free'

  pub source-Resolves : (n : ℕ) → Resolves joined target' (suc n) source.session_speaker_id
  source-Resolves n =
      Resolves.link n source.session_speaker_id target.session_speaker_id source' joined-source
        linked (target-Resolves n)

  joined-linked :
      (id j : String) (p : SessionSpeaker V F)
      → d id ≡ some p
      → p.merged_into ≡ some j
      → joined id ≡ some p
  joined-linked id j p e m = elim (joined-cases id) [
    | inl same ↦ let eq : source ≡ p = cc in cc
    | inr (inl same) ↦ let eq : target ≡ p = cc in cc
    | inr (inr kept) ↦ kept ∙ e
  ]

  pub joined-Resolves :
      {r : SessionSpeaker V F} {n : ℕ} {id : String}
      → Resolves d r n id
      → (r' : SessionSpeaker V F) × Resolves joined r' (suc n) id × Moves source target target' r r'
  unfolding Moves
  joined-Resolves {r} (Resolves.done n id e m) = elim (joined-cases id) [
    | inl same ↦
        (target', subst (Resolves joined target' (suc n)) same (source-Resolves n), inl (cc, refl))
    | inr (inl same) ↦ (
      target',
      subst (Resolves joined target' (suc n)) same (target-Resolves (suc n)),
      inr (inl (cc, refl)),
    )
    | inr (inr kept) ↦ (r, Resolves.done (suc n) id (kept ∙ e) m, inr (inr refl))
  ]
  joined-Resolves {r} (Resolves.link n id j p e m rest) =
      let (r', chain, moves) = joined-Resolves rest in
      (r', Resolves.link (suc n) id j p (joined-linked id j p e m) m chain, moves)

  flag-le : (id : String) → merged_flag (d id) ≤ merged_flag (joined id)
  flag-le id = elim (joined-cases id) [
    | inl same ↦
        let e : d id ≡ some source = cc in omega (arith, flag_free (d id) source e free_source)
    | inr (inl same) ↦
        let e : d id ≡ some target = cc in omega (arith, flag_free (d id) target e free_target)
    | inr (inr kept) ↦ omega (arith, ap merged_flag kept)
  ]

  count-le : (ids : List String) → merged_count d ids ≤ merged_count joined ids
  unfolding merged_count
  count-le [] = omega arith
  count-le (id ∷ ids) = omega (arith, count-le ids, flag-le id)

  -- The source is counted once more.
  pub count-lt :
      (ids : List String)
      → any (str_eq source.session_speaker_id) ids ≡ true
      → merged_count d ids < merged_count joined ids
  unfolding merged_count
  count-lt [] h = absurd cc
  count-lt (id ∷ ids) h = elim (Bool-cases (str_eq source.session_speaker_id id)) [
    | inl e ↦
        let same : source.session_speaker_id ≡ id = (eq_iff source.session_speaker_id id).0 e in
        let before : d id ≡ some source = cc in
        let after : joined id ≡ some source' = cc (joined-source, same) in
        omega (
          arith,
          count-le ids,
          flag_free (d id) source before free_source,
          flag_linked (joined id) source' target.session_speaker_id after linked,
        )
    | inr e ↦ omega (
      arith,
      flag-le id,
      count-lt ids (sym (ap (λ b. b || any (str_eq source.session_speaker_id) ids) e) ∙ h),
    )
  ]
