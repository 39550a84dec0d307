-- ===== src/Fusion/Words.antt =====
-- No word is lost or invented by coalescing.
use speaker_attributed_stt.Exec.{continue-eq-ok}
use speaker_attributed_stt.Session.{Session}
use speaker_attributed_stt.Errors.{ok}
use speaker_attributed_stt.Transcript.{Word}
use speaker_attributed_stt.Fusion.{
  length, joins, speaker_of_word, started, word_le, sorted, Progress, [], finished, ◌∷◌, coalesce,
  Option, coalesce_words, String, Utterance, SpeakerTurn, WordGroup, place_with,
}
use speaker_attributed_stt.Prelude.{
  ◌+◌, Bool-cases, sym, ◌∙◌, ap, ◌∷◌, ◌++◌, List, ℕ, ◌≡◌, inl, inr, some, none, refl, append_assoc,
  append-nil,
}

module _ {F : Type 0} where
  -- The words of the utterances, in order.
  unfoldable pub words_of : List (Utterance F) → List (Word F)
  words_of [] = []
  words_of (u ∷ us) = u.words ++ words_of us

  -- The words of the groups, those of a group by time.
  unfoldable pub spoken_words : List (WordGroup F) → List (Word F)
  spoken_words [] = []
  spoken_words (g ∷ gs) = sorted word_le g.words ++ spoken_words gs

  words_of-append : (a b : List (Utterance F)) → words_of (a ++ b) ≡ words_of a ++ words_of b
  unfolding words_of
  words_of-append [] b = refl
  words_of-append (u ∷ a) b =
      ap (λ x. u.words ++ x) (words_of-append a b)
      ∙ sym (append_assoc u.words (words_of a) (words_of b))

  words_of-last :
      (a : List (Utterance F)) (u : Utterance F) → words_of (a ++ u ∷ []) ≡ words_of a ++ u.words
  unfolding words_of
  words_of-last a u = words_of-append a (u ∷ []) ∙ ap (λ x. words_of a ++ x) (append-nil u.words)

  place_with-words :
      (max_pause_ms : ℕ) (group : WordGroup F) (canonical : String) (word : Word F)
      (earlier : List (Utterance F)) (current : Option (Utterance F))
      → words_of (finished (place_with max_pause_ms group canonical word earlier current))
        ≡ words_of (finished (record { earlier = earlier; current = current })) ++ word ∷ []
  unfolding place_with
  place_with-words max_pause_ms group canonical word earlier none =
      words_of-last earlier (started group canonical word)
  place_with-words max_pause_ms group canonical word earlier (some u) =
      elim (Bool-cases (joins max_pause_ms u canonical word)) [
        | inl e ↦ rw e (
            words_of-last earlier (record u { words = u.words ++ word ∷ [] })
            ∙ sym (append_assoc (words_of earlier) u.words (word ∷ []))
            ∙ ap (λ x. x ++ word ∷ []) (sym (words_of-last earlier u)))
        | inr e ↦ rw e (words_of-last (earlier ++ u ∷ []) (started group canonical word))
      ]

module _ {V F : Type 0} (max_pause_ms : ℕ) (turns : List SpeakerTurn) (ulid : ℕ → String) where
  coalesce_words-words :
      (group : WordGroup F) (previous : Option String) (p p' : Progress F) (n : ℕ)
      (words : List (Word F)) (s s' : Session V F)
      → coalesce_words max_pause_ms turns ulid group previous p n words s ≡ (ok p', s')
      → words_of (finished p') ≡ words_of (finished p) ++ words
  unfolding coalesce_words
  coalesce_words-words group previous p p' n [] s s' h =
      let same : p ≡ p' = cc (ap (λ x. x.0) h) in
      ap (λ q. words_of (finished q)) (sym same) ∙ sym (append-nil (words_of (finished p)))
  coalesce_words-words group previous p p' n (word ∷ words) s s' h =
      let (r, t) = speaker_of_word group turns previous word (ulid n) s in
      let (canonical, at, rest) =
        continue-eq-ok r
          (λ c.
            coalesce_words max_pause_ms turns ulid group (some c)
              (place_with max_pause_ms group c word p.earlier p.current) (n + 1) words)
          t s' p' h in
      let next = place_with max_pause_ms group canonical word p.earlier p.current in
      coalesce_words-words group (some canonical) next p' (n + 1) words t s' rest
      ∙ ap (λ x. x ++ words)
          (place_with-words max_pause_ms group canonical word p.earlier p.current)
      ∙ append_assoc (words_of (finished p)) (word ∷ []) words

  -- When `coalesce` returns, the words of the utterances it adds are the words of the groups, those
  -- of each group in the order of time: none is lost, none is new, and the order is kept.
  pub coalesce-words :
      (utterances utterances' : List (Utterance F)) (n : ℕ) (groups : List (WordGroup F))
      (s s' : Session V F)
      → coalesce max_pause_ms turns ulid utterances n groups s ≡ (ok utterances', s')
      → words_of utterances' ≡ words_of utterances ++ spoken_words groups
  unfolding coalesce spoken_words
  coalesce-words utterances utterances' n [] s s' h =
      let same : utterances ≡ utterances' = cc (ap (λ x. x.0) h) in
      ap words_of (sym same) ∙ sym (append-nil (words_of utterances))
  coalesce-words utterances utterances' n (group ∷ groups) s s' h =
      let begun : Progress F = record { earlier = utterances; current = none } in
      let (r, t) =
        coalesce_words max_pause_ms turns ulid group none begun n (sorted word_le group.words) s in
      let (p, at, rest) =
        continue-eq-ok r
          (λ q. coalesce max_pause_ms turns ulid (finished q) (n + length group.words) groups) t s'
          utterances' h in
      coalesce-words (finished p) utterances' (n + length group.words) groups t s' rest
      ∙ ap (λ x. x ++ spoken_words groups)
          (coalesce_words-words group none begun p n (sorted word_le group.words) s t
            (ap (λ x. (x, t)) at))
      ∙ append_assoc (words_of utterances) (sorted word_le group.words) (spoken_words groups)
