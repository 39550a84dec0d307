-- ===== src/Queue/Redis.antt =====
-- The commands of redis on lists that redis_queue.py sends, with what redis documents of them.
use speaker_attributed_stt.Prelude.{
  ℕ, String, Bool, ◌≡◌, refl, Option, none, some, List, [], ◌∷◌, ◌++◌, str_eq, if◌then◌else◌, last?,
  any, arith,
}

module _ {ℓ} {A : Type ℓ} where
  -- All but the last element.
  abbrev pub init : List A → List A
  init [] = []
  init (x ∷ []) = []
  init (x ∷ y ∷ xs) = x ∷ init (y ∷ xs)

  pub init-append : (xs : List A) (y : A) → init (xs ++ y ∷ []) ≡ xs
  init-append [] y = refl
  init-append (x ∷ []) y = refl
  init-append (x ∷ z ∷ xs) y = ground (arith, init-append (z ∷ xs) y)

  -- The list without its first element that passes the test.
  abbrev pub remove_first : (A → Bool) → List A → List A
  remove_first p [] = []
  remove_first p (x ∷ xs) = let rest = remove_first p xs in if p x then xs else x ∷ rest

-- The head of a list is its left end. `items` is `LRANGE key 0 -1`, empty where there is no such
-- key; `LLEN` is its length and `LINDEX key -1` its last element.
pub record Redis {V : Type 0} (same : V → V → Bool) : Type 1 where
  pub Store : Type 0
  pub items : Store → String → List V
  pub lpush : Store → String → V → Store
  pub rpop : Store → String → Option V × Store
  pub rpoplpush : Store → String → String → Option V × Store
  -- `LREM key 1 v`: how many were removed.
  pub lrem : Store → String → V → ℕ × Store
  pub delete : Store → String → Store
  pub items-lpush :
      (s : Store) (k : String) (v : V) (j : String)
      → items (lpush s k v) j ≡ (if str_eq k j then v ∷ items s k else items s j)
  pub rpop_value : (s : Store) (k : String) → (rpop s k).0 ≡ last? (items s k)
  pub items-rpop :
      (s : Store) (k j : String)
      → items (rpop s k).1 j ≡ (if str_eq k j then init (items s k) else items s j)
  pub rpoplpush_lem :
      (s : Store) (k l : String)
      → rpoplpush s k l ≡ (
        (rpop s k).0,
        elim (rpop s k).0 [ none ↦ (rpop s k).1 | some v ↦ lpush (rpop s k).1 l v ],
      )
  pub lrem_value :
      (s : Store) (k : String) (v : V)
      → (lrem s k v).0 ≡ (if any (same v) (items s k) then 1 else 0)
  pub items-lrem :
      (s : Store) (k : String) (v : V) (j : String)
      → items (lrem s k v).1 j
        ≡ (if str_eq k j then remove_first (same v) (items s k) else items s j)
  pub items-delete :
      (s : Store) (k j : String) → items (delete s k) j ≡ (if str_eq k j then [] else items s j)
