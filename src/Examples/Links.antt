-- ===== src/Examples/Links.antt =====
-- One separated source, linked to the one speaker there is.
use speaker_attributed_stt.Linking.Linker.{link_sources}
use speaker_attributed_stt.Prelude.{zero, suc}
use speaker_attributed_stt.Embedding.{similarity}
use speaker_attributed_stt.Prelude.Sort.{sorted}
use speaker_attributed_stt.Errors.{ok}
use speaker_attributed_stt.Linking.Links.{link_sources-NoDuplicates}
use speaker_attributed_stt.Linking.Decisions.{linked_speakers}
use speaker_attributed_stt.Session.Creating.Roster.{NoDuplicates}
use speaker_attributed_stt.Linking.{linked, LinkingConfig, Scores, LinkingDecision}
use speaker_attributed_stt.Prelude.{
  ◌-◌, get_elem?, ◌+◌, Option, false, ltb, String, ℕ, ◌≡◌, refl, some, none, List, [], ◌∷◌,
}
use speaker_attributed_stt.Examples.Speakers.{numbers, heard, old_prototype}

abbrev pub scores : Scores ℕ
scores = record { lt = ltb; plus = λ a b. a + b; minus = λ a b. a - b; nought = 0; one = 1 }

-- Row `i` gets column `i`.
abbrev pub diagonal : List (List ℕ) → ℕ → Option ℕ
diagonal matrix i = some i

abbrev pub config : LinkingConfig ℕ
config = record { accept_threshold = some 2; ambiguous_margin = some 1; continuity_bonus = 0 }

abbrev to_dan : LinkingDecision ℕ
to_dan = record {
  source_track = 0;
  session_speaker_id = some "dan";
  status = linked;
  score = some (some 6);
  margin = none;
  reason = "linked";
}

links :
    link_sources numbers scores diagonal (some heard ∷ []) (old_prototype ∷ []) config [] [] false
    ≡ ok (to_dan ∷ [])
unfolding link_sources similarity sorted
links = refl

diagonal_one_each :
    (m : List (List ℕ)) (i k j : ℕ) → diagonal m i ≡ some j → diagonal m k ≡ some j → i ≡ k
diagonal_one_each m i k j h h' = cc

dan_place :
    (i k : ℕ) (key : String)
    → get_elem? ("dan" ∷ []) i ≡ some key
    → get_elem? ("dan" ∷ []) k ≡ some key
    → i ≡ k
dan_place zero zero key h h' = refl
dan_place zero (suc k) key h h' = absurd cc
dan_place (suc i) k key h h' = absurd cc

link_sources-NoDuplicates_example : NoDuplicates (linked_speakers (to_dan ∷ []))
link_sources-NoDuplicates_example =
    link_sources-NoDuplicates numbers scores diagonal (some heard ∷ []) (old_prototype ∷ []) config
      [] [] false (to_dan ∷ []) diagonal_one_each dan_place links
