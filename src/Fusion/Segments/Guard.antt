-- ===== src/Fusion/Segments/Guard.antt =====
-- The guard at the end of `fuse` never fires.
use speaker_attributed_stt.Exec
use speaker_attributed_stt.Exec.{pure, lift, continue-eq-ok}
use speaker_attributed_stt.Session.{Session}
use speaker_attributed_stt.Errors.{ok}
use speaker_attributed_stt.Fusion.{
  get, true, coalesce, Utterance, ℕ, Bool, SpeakerTurn, word_le, WordGroup,
}
use speaker_attributed_stt.Transcript.{TranscriptSegment, validate, Word}
use speaker_attributed_stt.Fusion.Segments.{
  segment_of, emitted_count, fuse, segments_of, length, spoken_count, String, FusionSettings,
}
use speaker_attributed_stt.Fusion.Words.{coalesce-words, words_of, spoken_words}
use speaker_attributed_stt.Prelude.Sort.{insert_sorted, sorted}
use speaker_attributed_stt.Prelude.{
  sym, ap, ◌∙◌, length-append, suc, arith, ◌≡◌, refl, List, [], ◌∷◌, ◌==◌, ◌+◌,
}

module _ {F : Type 0} where
  length-insert_sorted :
      (x : Word F) (xs : List (Word F)) → length (insert_sorted word_le x xs) ≡ suc (length xs)
  unfolding insert_sorted
  length-insert_sorted x [] = refl
  length-insert_sorted x (y ∷ ys) = ground (arith, length-insert_sorted x ys)

  length-sorted : (xs : List (Word F)) → length (sorted word_le xs) ≡ length xs
  unfolding sorted
  length-sorted [] = refl
  length-sorted (x ∷ xs) = length-insert_sorted x (sorted word_le xs) ∙ ap suc (length-sorted xs)

  length-spoken_words :
      (groups : List (WordGroup F)) → length (spoken_words groups) ≡ spoken_count groups
  unfolding spoken_words spoken_count
  length-spoken_words [] = refl
  length-spoken_words (g ∷ gs) = omega (
    arith,
    length-append (sorted word_le g.words) (spoken_words gs),
    length-sorted g.words,
    length-spoken_words gs,
  )

  validate-same :
      (in_unit : F → Bool) (g h : TranscriptSegment F) → validate in_unit g ≡ ok h → g ≡ h
  unfolding validate
  validate-same in_unit g h e = ground arith

module _ {V F : Type 0} (settings : FusionSettings F) (strip : String → String) where
  segments_of-count :
      (event_id : ℕ → String) (n : ℕ) (us : List (Utterance F))
      (segments : List (TranscriptSegment F)) (s s' : Session V F)
      → segments_of settings strip event_id n us s ≡ (ok segments, s')
      → emitted_count segments ≡ length (words_of us)
  unfolding segments_of segment_of emitted_count words_of
  segments_of-count event_id n [] segments s s' h =
      let none_out : segments ≡ [] = cc (ap (λ x. x.0) h) in ap emitted_count none_out
  segments_of-count event_id n (u ∷ us) segments s s' h =
      let (speaker, found, h1) =
        continue-eq-ok (get s u.speaker_id)
          (λ p.
            Exec.◌>>=◌
              (lift (validate settings.in_unit (segment_of settings strip p u (event_id n))))
              (λ g.
                Exec.◌>>=◌ (segments_of settings strip event_id (n + 1) us)
                  (λ rest. pure (g ∷ rest))))
          s s' segments h in
      let made : TranscriptSegment F = segment_of settings strip speaker u (event_id n) in
      let (g, valid, h2) =
        continue-eq-ok (validate settings.in_unit made)
          (λ g.
            Exec.◌>>=◌ (segments_of settings strip event_id (n + 1) us) (λ rest. pure (g ∷ rest)))
          s s' segments h1 in
      let (r, t) = segments_of settings strip event_id (n + 1) us s in
      let (rest, at, h3) = continue-eq-ok r (λ rest. pure (g ∷ rest)) t s' segments h2 in
      let below = segments_of-count event_id (n + 1) us rest s t (ap (λ x. (x, t)) at) in
      let out : segments ≡ g ∷ rest = cc (ap (λ x. x.0) h3) in
      let same : g.words ≡ u.words =
        ap (λ x. x.words) (sym (validate-same settings.in_unit made g valid)) in
      ap emitted_count out
      ∙ omega (arith, below, ap length same, length-append u.words (words_of us))

  -- When the words are coalesced and every segment passes its checks, `fuse` returns the segments:
  -- its last test, that as many words come out as went in, never fails.
  pub fuse-guard :
      (groups : List (WordGroup F)) (turns : List SpeakerTurn) (ulid event_id : ℕ → String)
      (us : List (Utterance F)) (segments : List (TranscriptSegment F)) (s t t' : Session V F)
      → coalesce settings.max_pause_ms turns ulid [] 0 groups s ≡ (ok us, t)
      → segments_of settings strip event_id 0 us t ≡ (ok segments, t')
      → fuse settings strip groups turns ulid event_id s ≡ (ok segments, t')
  unfolding fuse spoken_words words_of
  fuse-guard groups turns ulid event_id us segments s t t' h h' =
      let same : emitted_count segments ≡ spoken_count groups =
        segments_of-count event_id 0 us segments t t' h'
        ∙ ap length (coalesce-words settings.max_pause_ms turns ulid [] us 0 groups s t h)
        ∙ length-spoken_words groups in
      let equal : (emitted_count segments == spoken_count groups) ≡ true = ground arith in
      rw (h, h', equal) refl
