-- ===== src/Linking/Matrices.antt =====
-- The score matrix, its restriction and its bonuses, and the matrix that the solver gets.
use speaker_attributed_stt.Linking.{is_missing, Matrix, Scores}
use speaker_attributed_stt.Prelude.{
  if◌then◌else◌, String, ℕ, zero, suc, Option, none, some, List, [], ◌∷◌, ◌++◌, map, any, all,
  length, str_eq,
}
use speaker_attributed_stt.Errors.{Result, ok, ◌>>=◌}
use speaker_attributed_stt.Embedding.{Linear, SpeakerEmbedding, SpeakerPrototype, similarity}

module _ {V F : Type 0} (num : Linear V F) where
  score_row : List (SpeakerPrototype V F) → SpeakerEmbedding V F → Result (List (Option F))
  score_row [] e = ok []
  score_row (p ∷ ps) e = do s ← similarity num p e; rest ← score_row ps e; ok (some s ∷ rest)

  row_of : List (SpeakerPrototype V F) → Option (SpeakerEmbedding V F) → Result (List (Option F))
  unfolding score_row
  row_of ps none = ok (map (λ p. none) ps)
  row_of ps (some e) = score_row ps e

  unfoldable pub build_score_matrix :
      List (Option (SpeakerEmbedding V F)) → List (SpeakerPrototype V F) → Result (Matrix F)
  unfolding row_of
  build_score_matrix [] ps = ok []
  build_score_matrix (e ∷ es) ps = do
    row ← row_of ps e
    rest ← build_score_matrix es ps
    ok (row ∷ rest)

-- The last place of the key: `{key: idx for idx, key in enumerate(keys)}.get(key)`.
unfoldable pub key_index : List String → String → Option ℕ
key_index [] key = none
key_index (k ∷ ks) key = elim (key_index ks key) [
  | some i ↦ some (suc i)
  | none ↦ if str_eq k key then some 0 else none
]

module _ {F : Type 0} where
  blank_row : List String → List String → List (Option F) → List (Option F)
  blank_row candidates [] row = row
  blank_row candidates (k ∷ ks) [] = []
  blank_row candidates (k ∷ ks) (s ∷ row) =
      let rest = blank_row candidates ks row in
      (if any (str_eq k) candidates then s else none) ∷ rest

  -- `restrict_to_candidates`; no set and an empty one are the same to it.
  unfoldable pub restrict_to_candidates : Matrix F → List String → List String → Matrix F
  unfolding blank_row
  restrict_to_candidates matrix keys [] = matrix
  restrict_to_candidates matrix keys (c ∷ cs) =
      let restricted = map (blank_row (c ∷ cs) keys) matrix in
      if all (all is_missing) restricted then matrix else restricted

module _ {F : Type 0} (num : Scores F) where
  add_to : F → Option F → Option F
  add_to bonus none = none
  add_to bonus (some s) = some (num.plus s bonus)

  add_in_row : ℕ → F → List (Option F) → List (Option F)
  unfolding add_to
  add_in_row j bonus [] = []
  add_in_row zero bonus (s ∷ row) = add_to bonus s ∷ row
  add_in_row (suc j) bonus (s ∷ row) = s ∷ add_in_row j bonus row

  add_in_matrix : ℕ → ℕ → F → Matrix F → Matrix F
  unfolding add_in_row
  add_in_matrix i j bonus [] = []
  add_in_matrix zero j bonus (row ∷ rows) = add_in_row j bonus row ∷ rows
  add_in_matrix (suc i) j bonus (row ∷ rows) = row ∷ add_in_matrix i j bonus rows

  boosted_at : Option ℕ → ℕ → F → Matrix F → Matrix F
  unfolding add_in_matrix
  boosted_at none i bonus matrix = matrix
  boosted_at (some j) i bonus matrix = add_in_matrix i j bonus matrix

  add_bonuses : List String → List (ℕ × String) → F → Matrix F → Matrix F
  unfolding boosted_at key_index
  add_bonuses keys [] bonus matrix = matrix
  add_bonuses keys ((i, key) ∷ rest) bonus matrix =
      add_bonuses keys rest bonus (boosted_at (key_index keys key) i bonus matrix)

  -- `_apply_continuity_bonus`; no mapping and an empty one are the same to it.
  unfoldable pub apply_continuity_bonus : Matrix F → List String → List (ℕ × String) → F → Matrix F
  unfolding add_bonuses
  apply_continuity_bonus matrix keys previous bonus =
      if num.lt num.nought bonus then add_bonuses keys previous bonus matrix else matrix

  -- Row `i` of the dummy columns: its own entry, and minus infinity.
  dummy_row : ℕ → ℕ → Option F → List (Option F)
  dummy_row zero i own = []
  dummy_row (suc n) zero own = own ∷ dummy_row n n none
  dummy_row (suc n) (suc i) own = none ∷ dummy_row n i own

  extend_from : ℕ → ℕ → Option F → Matrix F → Matrix F
  unfolding dummy_row
  extend_from n i own [] = []
  extend_from n i own (row ∷ rows) = (row ++ dummy_row n i own) ∷ extend_from n (suc i) own rows

  floor_of_row : F → List (Option F) → F
  floor_of_row low [] = low
  floor_of_row low (none ∷ row) = floor_of_row low row
  floor_of_row low (some s ∷ row) = floor_of_row (if num.lt s low then s else low) row

  floor_of : F → Matrix F → F
  unfolding floor_of_row
  floor_of low [] = low
  floor_of low (row ∷ rows) = floor_of (floor_of_row low row) rows

  or_floor : F → Option F → F
  or_floor low none = low
  or_floor low (some s) = s

  -- The finite matrix that the solver gets.
  unfoldable pub solvable : Matrix F → Option F → List (List F)
  unfolding extend_from floor_of or_floor
  solvable scored dummy =
      let extended = extend_from (length scored) 0 dummy scored in
      let low = num.minus (floor_of num.nought extended) num.one in
      map (map (or_floor low)) extended
