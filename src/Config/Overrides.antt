-- ===== src/Config/Overrides.antt =====
-- src/sastt/config.py: what an override does to the values of a configuration file.
use speaker_attributed_stt.Prelude.{
  String, false, ◌≡◌, refl, ap, ◌∙◌, subst, inl, inr, Option, none, some, List, [], ◌∷◌, str_eq,
  eq_iff, if◌then◌else◌, Option-cases, Bool-cases, arith,
}
use speaker_attributed_stt.Config.Overlay.{
  Value, leaf, section, Items, end, item, find, set, deep_merge, merged_value,
}

module _ {L : Type 0} where
  unfoldable mutual
    -- A dict has each of its keys once, at every depth.
    pub IsDict : Items L → Type 0
    IsDict end = Unit
    IsDict (item key value rest) = (find key rest ≡ none) × IsNested value × IsDict rest

    pub IsNested : Value L → Type 0
    IsNested (leaf l) = Unit
    IsNested (section items) = IsDict items

  -- The value under a path of keys.
  unfoldable pub value_at : List String → Value L → Option (Value L)
  value_at [] v = some v
  value_at (key ∷ keys) (leaf l) = none
  value_at (key ∷ keys) (section items) = elim (find key items) [
    | none ↦ none
    | some v ↦ value_at keys v
  ]

  -- The override has no value at the path and none, but sections, above it.
  unfoldable pub IsUntouched : List String → Value L → Type 0
  IsUntouched [] v = ⊥
  IsUntouched (key ∷ keys) (leaf l) = ⊥
  IsUntouched (key ∷ keys) (section items) = elim (find key items) [
    | none ↦ Unit {0}
    | some v ↦ IsUntouched keys v
  ]

  find-set :
      (key j : String) (v : Value L) (items : Items L)
      → find j (set key v items) ≡ (if str_eq key j then some v else find j items)
  unfolding find set
  find-set key j v end = refl
  find-set key j v (item k w rest) =
      let ih = find-set key j v rest in
      elim (Bool-cases (str_eq k key)) [
        | inl same ↦ let e = (eq_iff k key).0 same in rw (same, e) (ground arith)
        | inr other ↦ rw other (elim (Bool-cases (str_eq k j)) [
          | inl here ↦
              let e = (eq_iff k j).0 here in
              let f : str_eq key j ≡ false = ground (arith, eq_iff key j, eq_iff k key) in
              rw (here, f) refl
          | inr there ↦ rw there ih
        ])
      ]

  -- The old value, or the merged one where the override has the key.
  abbrev merged_option : Option (Value L) → Option (Value L) → Option (Value L)
  merged_option old none = old
  merged_option old (some new) = some (merged_value new old)

  -- Each key of the merged dict has the merged value.
  find-deep_merge :
      (j : String) (base over : Items L)
      → IsDict over
      → find j (deep_merge base over) ≡ merged_option (find j base) (find j over)
  unfolding deep_merge find IsDict
  find-deep_merge j base end h = refl
  find-deep_merge j base (item key value rest) h =
      let w = merged_value value (find key base) in
      let (absent, nested, dict) = h in
      let ih = find-deep_merge j (set key w base) rest dict in
      let step = find-set key j w base in
      elim (Bool-cases (str_eq key j)) [
        | inl same ↦
            let e = (eq_iff key j).0 same in
            let gone : find j rest ≡ none = subst (λ k. find k rest ≡ none) e absent in
            rw same
              (ih ∙ rw (gone, step, same) (ap (λ k. some (merged_value value (find k base))) e))
        | inr other ↦
            let s : find j (set key w base) ≡ find j base = step ∙ rw other refl in
            rw other (ih ∙ ap (λ o. merged_option o (find j rest)) s)
      ]

  find-IsNested :
      (key : String) (items : Items L) (v : Value L)
      → IsDict items
      → find key items ≡ some v
      → IsNested v
  unfolding find IsDict
  find-IsNested key end v h found = cc
  find-IsNested key (item k w rest) v h found =
      let (absent, nested, dict) = h in
      elim (Bool-cases (str_eq k key)) [
        | inl same ↦ let e : w ≡ v = (let k = rw same at found in cc) in subst IsNested e nested
        | inr other ↦ find-IsNested key rest v dict (rw other at found)
      ]

  value_at-wins :
      (path : List String) (new : Value L) (old : Option (Value L)) (l : L)
      → IsNested new
      → value_at path new ≡ some (leaf l)
      → value_at path (merged_value new old) ≡ some (leaf l)
  unfolding value_at merged_value IsNested
  value_at-wins [] (leaf m) old l h e = e
  value_at-wins [] (section new) old l h e = cc
  value_at-wins (key ∷ keys) (leaf m) old l h e = cc
  value_at-wins (key ∷ keys) (section new) none l h e = e
  value_at-wins (key ∷ keys) (section new) (some (leaf m)) l h e = e
  value_at-wins (key ∷ keys) (section new) (some (section old)) l h e =
      let merged = find-deep_merge key old new h in
      elim (Option-cases (find key new)) [
        | inl missing ↦ let k = rw (missing, value_at) at e in cc
        | inr (v, found) ↦
            let ih =
              value_at-wins keys v (find key old) l (find-IsNested key new v h found)
                (rw (found, value_at) at e) in
            rw (merged, found, value_at, merged_value) ih
      ]

  value_at-kept :
      (path : List String) (new old v : Value L)
      → IsNested new
      → IsUntouched path new
      → value_at path old ≡ some v
      → value_at path (merged_value new (some old)) ≡ some v
  unfolding value_at merged_value IsNested IsUntouched
  value_at-kept [] new old v h u e = absurd u
  value_at-kept (key ∷ keys) (leaf m) old v h u e = absurd u
  value_at-kept (key ∷ keys) (section new) (leaf m) v h u e = cc
  value_at-kept (key ∷ keys) (section new) (section old) v h u e =
      let merged = find-deep_merge key old new h in
      elim (Option-cases (find key new)) [
        | inl missing ↦ rw (merged, missing, value_at, merged_value) e
        | inr (m, found) ↦ elim (Option-cases (find key old)) [
          | inl absent ↦ let k = rw (absent, value_at) at e in cc
          | inr (w, there) ↦
              let ih =
                value_at-kept keys m w v (find-IsNested key new m h found)
                  (rw (found, IsUntouched) at u) (rw (there, value_at) at e) in
              rw (merged, found, there, value_at, merged_value) ih
        ]
      ]

  -- Overriding a configuration by a dict that has each key once: a value, other than a section, that
  -- the override has under some path of keys is the value under that path, and a value of the file
  -- under a path at which and above which the override has none but sections is kept.
  pub deep_merge-overrides :
      (base over : Items L)
      → IsDict over
      → ((path : List String) (l : L)
          → value_at path (section over) ≡ some (leaf l)
          → value_at path (section (deep_merge base over)) ≡ some (leaf l))
        × ((path : List String) (v : Value L)
            → IsUntouched path (section over)
            → value_at path (section base) ≡ some v
            → value_at path (section (deep_merge base over)) ≡ some v)
  unfolding merged_value IsNested
  deep_merge-overrides base over h = (
    λ path l e. value_at-wins path (section over) (some (section base)) l h e,
    λ path v u e. value_at-kept path (section over) (section base) v h u e,
  )
