-- ===== src/Fusion/Dedup.antt =====
-- Delivering words again adds nothing.
use speaker_attributed_stt.Transcript.{Word}
use speaker_attributed_stt.Fusion.{
  has_id, not, dedup_words, ◌∷◌, [], true, filter, any, same_word, false, is_known,
}
use speaker_attributed_stt.Prelude.{
  subst, ◌∙◌, filter-append, Bool-cases, ap, eq_refl, ◌||◌, arith, ◌++◌, List, Bool, ℕ, ◌≡◌, inl,
  inr, refl, All, append_assoc,
}

any-append : {A : Type 0} (p : A → Bool) (a b : List A) → any p (a ++ b) ≡ (any p a || any p b)
any-append p [] b = refl
any-append p (x ∷ a) b = ground (arith, any-append p a b)

any-here :
    {A : Type 0} (p : A → Bool) (a : List A) (x : A) (b : List A)
    → p x ≡ true
    → any p (a ++ x ∷ b) ≡ true
any-here p [] x b h = rw h refl
any-here p (y ∷ a) x b h = ground (arith, any-here p a x b h)

or_true : (b : Bool) → (b || true) ≡ true
or_true true = refl
or_true false = refl

filter-none :
    {A : Type 0} (p : A → Bool) (xs : List A) → All (λ x. p x ≡ false) xs → filter p xs ≡ []
filter-none p [] h = refl
filter-none p (x ∷ xs) h = rw h.0 (filter-none p xs h.1)

module _ {F : Type 0} (tolerance_ms : ℕ) where
  is_known-append :
      (a b : List (Word F)) (w : Word F)
      → is_known (a ++ b) tolerance_ms w ≡ (is_known a tolerance_ms w || is_known b tolerance_ms w)
  unfolding is_known
  is_known-append a b w =
      ground (arith, any-append (has_id w.word_id) a b, any-append (same_word tolerance_ms w) a b)

  same_word_self : (w : Word F) → same_word tolerance_ms w w ≡ true
  unfolding same_word
  same_word_self w = ground (arith, eq_refl w.text)

  known-after :
      (existing before words : List (Word F)) (w : Word F)
      → is_known existing tolerance_ms w ≡ false
      → is_known (dedup_words existing (before ++ w ∷ words) tolerance_ms) tolerance_ms w ≡ true
  unfolding is_known dedup_words
  known-after existing before words w new =
      let test : Word F → Bool = λ x. not (is_known existing tolerance_ms x) in
      let kept : test w ≡ true = ap not new in
      let parts : filter test (before ++ w ∷ words) ≡ filter test before ++ w ∷ filter test words =
        filter-append test before (w ∷ words) ∙ rw kept refl in
      let there : any (same_word tolerance_ms w) (filter test (before ++ w ∷ words)) ≡ true =
        rw parts (
          any-here (same_word tolerance_ms w) (filter test before) w (filter test words)
            (same_word_self w)) in
      rw there (or_true (any (has_id w.word_id) (filter test (before ++ w ∷ words))))

  again :
      (existing before words : List (Word F))
      → All
          (λ w.
            not (
              is_known
                (existing ++ dedup_words existing (before ++ words) tolerance_ms)
                tolerance_ms
                w)
            ≡ false)
          words
  again existing before [] = tt
  again existing before (w ∷ words) = (
    ap not (elim (Bool-cases (is_known existing tolerance_ms w)) [
      | inl old ↦
          is_known-append existing _ w
          ∙ ap
              (λ b.
                b
                || is_known (dedup_words existing (before ++ w ∷ words) tolerance_ms) tolerance_ms
                    w)
              old
      | inr new ↦
          is_known-append existing _ w
          ∙ ap (λ b. is_known existing tolerance_ms w || b)
              (known-after existing before words w new)
          ∙ or_true (is_known existing tolerance_ms w)
    ]),
    subst
        (λ l.
          All
            (λ v.
              not (is_known (existing ++ dedup_words existing l tolerance_ms) tolerance_ms v)
              ≡ false)
            words)
        (append_assoc before (w ∷ []) words) (again existing (before ++ w ∷ []) words),
  )

  -- Once the words that `dedup_words` lets through have been added, delivering the same words again
  -- lets none through.
  pub dedup_words-again :
      (existing incoming : List (Word F))
      → dedup_words (existing ++ dedup_words existing incoming tolerance_ms) incoming tolerance_ms
        ≡ []
  unfolding dedup_words
  dedup_words-again existing incoming = filter-none _ incoming (again existing [] incoming)
