-- ===== src/Linking/Decisions.antt =====
-- No speaker is given to two sources, and nothing is linked without calibrated thresholds.
use speaker_attributed_stt.Linking.{
  is_missing, not, str_eq, get_elem?, Matrix, LinkingConfig, String, Option, Scores, LinkStatus,
  LinkingDecision,
}
use speaker_attributed_stt.Linking.Deciding.{
  is_low, below, decided, key_of, decide_key, decide_from, decide_source, decide_assigned,
}
use speaker_attributed_stt.Prelude.{
  ap, eq_iff, ◌&&◌, Bool-cases, if◌then◌else◌, subst, ◌∙◌, sym, Option-cases, arith, ◌≤◌, Bool, ◌≡◌,
  All, ◌⊎◌, inl, inr, All-append, All-map, List, [], ◌∷◌, ◌++◌, true, false, none, some, suc, ℕ,
  refl,
}
use speaker_attributed_stt.Session.Creating.Roster.{NoDuplicates}

unfoldable pub is_linked : LinkStatus → Bool
is_linked LinkStatus.linked = true
is_linked LinkStatus.ambiguous = false
is_linked LinkStatus.unknown = false
is_linked LinkStatus.uncalibrated = false

-- The speaker of a decision that links, in a list.
unfoldable pub speaker_of : Bool → Option String → List String
speaker_of false speaker = []
speaker_of true none = []
speaker_of true (some key) = key ∷ []

module _ {F : Type 0} where
  unfoldable pub link_of : LinkingDecision F → List String
  unfolding speaker_of is_linked
  link_of d = speaker_of (is_linked d.status) d.session_speaker_id

  pub link_of-refused : (d : LinkingDecision F) → is_linked d.status ≡ false → link_of d ≡ []
  unfolding link_of
  link_of-refused d h = rw h refl

  link_of-linked :
      (d : LinkingDecision F) (key : String)
      → is_linked d.status ≡ true
      → d.session_speaker_id ≡ some key
      → link_of d ≡ key ∷ []
  unfolding link_of
  link_of-linked d key h at = rw (h, at) refl

  -- The speakers that the decisions link, in order.
  unfoldable pub linked_speakers : List (LinkingDecision F) → List String
  unfolding link_of
  linked_speakers [] = []
  linked_speakers (d ∷ ds) = link_of d ++ linked_speakers ds

module _ {F : Type 0} (num : Scores F) where
  -- A decision links the key of the solver's column, or nothing.
  abbrev Follows : Option (ℕ × String) → LinkingDecision F → Type 0
  Follows key d =
      (link_of d ≡ []) ⊎ ((j : ℕ) × (k : String) × (key ≡ some (j, k)) × (link_of d ≡ k ∷ []))

  decide_assigned-Follows :
      (constrained : Bool) (accept ambiguous_margin : F) (i j : ℕ) (key : String) (score : Option F)
      (margin : Option F) (contested : Bool)
      → Follows
          (some (j, key))
          (decide_assigned num constrained accept ambiguous_margin i key score margin contested)
  unfolding decide_assigned is_linked
  decide_assigned-Follows constrained accept ambiguous_margin i j key score margin contested =
      elim (Bool-cases (constrained && not (is_missing score))) [
        | inl e ↦ rw e (inr (j, key, refl, link_of-linked _ key refl refl))
        | inr e ↦ elim (Bool-cases (below num score accept)) [
          | inl f ↦ rw (e, f) (inl (link_of-refused _ refl))
          | inr f ↦ elim (Bool-cases (is_low num margin ambiguous_margin)) [
            | inl g ↦ rw (e, f, g) (inl (link_of-refused _ refl))
            | inr g ↦ elim (Bool-cases contested) [
              | inl h ↦ rw (e, f, g, h) (inl (link_of-refused _ refl))
              | inr h ↦ rw (e, f, g, h) (inr (j, key, refl, link_of-linked _ key refl refl))
            ]
          ]
        ]
      ]

  decide_source-Follows :
      (constrained : Bool) (accept margin : Option F) (i : ℕ) (row : List (Option F))
      (owners : ℕ → ℕ) (key : Option (ℕ × String))
      → Follows key (decide_source num constrained accept margin i row owners key)
  unfolding decide_source decide_key link_of speaker_of is_linked
  decide_source-Follows constrained none margin i row owners key = inl refl
  decide_source-Follows constrained (some a) none i row owners key = inl refl
  decide_source-Follows constrained (some a) (some m) i row owners none = inl refl
  decide_source-Follows constrained (some a) (some m) i row owners (some (j, key)) =
      decide_assigned-Follows constrained a m i j key _ _ _

  -- Without calibrated thresholds no decision links.
  pub decide_source-uncalibrated :
      (constrained : Bool) (accept margin : Option F) (i : ℕ) (row : List (Option F))
      (owners : ℕ → ℕ) (key : Option (ℕ × String))
      → (accept ≡ none) ⊎ (margin ≡ none)
      → link_of (decide_source num constrained accept margin i row owners key) ≡ []
  unfolding decide_source link_of speaker_of is_linked
  decide_source-uncalibrated constrained none margin i row owners key h = refl
  decide_source-uncalibrated constrained (some a) none i row owners key h = refl
  decide_source-uncalibrated constrained (some a) (some m) i row owners key (inl h) = absurd cc
  decide_source-uncalibrated constrained (some a) (some m) i row owners key (inr h) = absurd cc

  module _ (constrained : Bool) (config : LinkingConfig F) (keys : List String)
      (assignment : ℕ → Option ℕ) (owners : ℕ → ℕ) where
    -- The key was given to a source from the `i`th one on.
    Given : ℕ → String → Type 0
    Given i key =
        (k : ℕ) × (j : ℕ) × (i ≤ k) × (assignment k ≡ some j) × (get_elem? keys j ≡ some key)

    key_of-missing : (i : ℕ) → get_elem? keys i ≡ none → key_of keys (some i) ≡ none
    unfolding key_of
    key_of-missing i e = rw (key_of, e) refl

    key_of-there :
        (i : ℕ) (k : String) → get_elem? keys i ≡ some k → key_of keys (some i) ≡ some (i, k)
    unfolding key_of
    key_of-there i k e = rw (key_of, e) refl

    key_of-some :
        (found : Option ℕ) (j : ℕ) (key : String)
        → key_of keys found ≡ some (j, key)
        → (found ≡ some j) × (get_elem? keys j ≡ some key)
    unfolding key_of
    key_of-some none j key h = absurd cc
    key_of-some (some i) j key h = elim (Option-cases (get_elem? keys i)) [
      | inl missing ↦ absurd (cc (key_of-missing i missing))
      | inr (k, there) ↦
          let same = sym (key_of-there i k there) ∙ h in
          let place : i ≡ j = cc in
          let found_key : k ≡ key = cc in
          (ap some place, ap (get_elem? keys) (sym place) ∙ there ∙ ap some found_key)
    ]

    -- The decision on the `i`th source.
    abbrev nth_decision : ℕ → Bool → List (Option F) → LinkingDecision F
    nth_decision i e row =
        if e
        then decide_source num constrained config.accept_threshold config.ambiguous_margin i row
            owners (key_of keys (assignment i))
        else decided num i none LinkStatus.unknown none none "no_embedding"

    nth_decision-Follows :
        (i : ℕ) (e : Bool) (row : List (Option F))
        → Follows (key_of keys (assignment i)) (nth_decision i e row)
    unfolding link_of speaker_of is_linked
    nth_decision-Follows i true row = decide_source-Follows constrained _ _ i row owners _
    nth_decision-Follows i false row = inl refl

    Follows-Given :
        (i : ℕ) (d : LinkingDecision F)
        → Follows (key_of keys (assignment i)) d
        → All (Given i) (link_of d)
    unfolding Given
    Follows-Given i d (inl e) = subst (All (Given i)) (sym e) tt
    Follows-Given i d (inr (j, k, at, e)) =
        let (assigned, there) = key_of-some (assignment i) j k at in
        subst (All (Given i)) (sym e) ((i, j, omega arith, assigned, there), tt)

    decide_from-Given :
        (i : ℕ) (es : List Bool) (rows : Matrix F)
        → All
            (Given i)
            (linked_speakers (decide_from num constrained config keys assignment owners i es rows))
    unfolding decide_from linked_speakers Given
    decide_from-Given i [] rows = tt
    decide_from-Given i (e ∷ es) [] = tt
    decide_from-Given i (e ∷ es) (row ∷ rows) =
        All-append (Given i) (link_of (nth_decision i e row)) _
          (Follows-Given i (nth_decision i e row) (nth_decision-Follows i e row))
          (All-map (Given (suc i)) (Given i) _ (λ key g. (g.0, g.1, omega (arith, g.2), g.3, g.4))
            (decide_from-Given (suc i) es rows))

    module _ (one_each : (i k j : ℕ) → assignment i ≡ some j → assignment k ≡ some j → i ≡ k)
        (same_place : (i k : ℕ) (key : String)
          → get_elem? keys i ≡ some key
          → get_elem? keys k ≡ some key
          → i ≡ k) where
      NoDuplicates-cons :
          (i : ℕ) (d : LinkingDecision F) (rest : List String)
          → Follows (key_of keys (assignment i)) d
          → All (Given (suc i)) rest
          → NoDuplicates rest
          → NoDuplicates (link_of d ++ rest)
      unfolding Given
      NoDuplicates-cons i d rest (inl e) given distinct = rw e distinct
      NoDuplicates-cons i d rest (inr (j, k, at, e)) given distinct =
          let (assigned, there) = key_of-some (assignment i) j k at in
          rw e (
            All-map (Given (suc i)) (λ other. str_eq other k ≡ false) rest
                (λ other (n, m, later, assigned', there'). elim (Bool-cases (str_eq other k)) [
                  | inl same ↦
                      let equal : other ≡ k = (eq_iff other k).0 same in
                      let place : m ≡ j = same_place m j k (there' ∙ ap some equal) there in
                      let once : n ≡ i = one_each n i j (assigned' ∙ ap some place) assigned in
                      absurd (omega arith)
                  | inr other_one ↦ other_one
                ])
                given,
            distinct,
          )

      pub decide_from-NoDuplicates :
          (i : ℕ) (es : List Bool) (rows : Matrix F)
          → NoDuplicates (
              linked_speakers (decide_from num constrained config keys assignment owners i es rows))
      unfolding decide_from linked_speakers
      decide_from-NoDuplicates i [] rows = tt
      decide_from-NoDuplicates i (e ∷ es) [] = tt
      decide_from-NoDuplicates i (e ∷ es) (row ∷ rows) =
          NoDuplicates-cons i (nth_decision i e row) _ (nth_decision-Follows i e row)
            (decide_from-Given (suc i) es rows) (decide_from-NoDuplicates (suc i) es rows)
