-- ===== src/Config/Overlay.antt =====
-- src/sastt/config.py: `_deep_merge` on nested dicts. `L` is a value that is no dict.
use speaker_attributed_stt.Prelude.{String, Option, none, some, str_eq, if◌then◌else◌}

mutual
  pub data Value (L : Type 0) : Type 0 where
    leaf : L → Value L
    section : Items L → Value L

  -- A dict in the order of its keys.
  pub data Items (L : Type 0) : Type 0 where
    end : Items L
    item : String → Value L → Items L → Items L

module _ {L : Type 0} where
  -- `d.get(key)`
  unfoldable pub find : String → Items L → Option (Value L)
  find key end = none
  find key (item k v rest) = if str_eq k key then some v else find key rest

  -- `d[key] = value`: a new key comes last.
  unfoldable pub set : String → Value L → Items L → Items L
  set key value end = item key value end
  set key value (item k v rest) =
      if str_eq k key then item k value rest else item k v (set key value rest)

  unfoldable mutual
    unfolding find set

    pub deep_merge : Items L → Items L → Items L
    deep_merge merged end = merged
    deep_merge merged (item key value rest) =
        deep_merge (set key (merged_value value (find key merged)) merged) rest

    -- The new value of a key that the override has, by the old one.
    pub merged_value : Value L → Option (Value L) → Value L
    merged_value (leaf l) old = leaf l
    merged_value (section new) none = section new
    merged_value (section new) (some (leaf l)) = section new
    merged_value (section new) (some (section old)) = section (deep_merge old new)
