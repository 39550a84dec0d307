-- ===== src/Prelude/Dict.antt =====
-- A Python dict with text keys whose order the code does not use: what it holds under each key.
use Prim.Native.String.{String}
use mathlib.Core.Path.{◌≡◌}
use mathlib.Core.Option.{Option, none, some}
use mathlib.Core.Bool.{Bool, true, false}
use native.Mathlib.Omega.{arith}
use text.Mathlib.Text.{◌==◌ as str_eq}
use text.Mathlib.TextPositions.{eq_refl}
use speaker_attributed_stt.Prelude.Tests.{if◌then◌else◌}

abbrev pub Dict {ℓ} : Type ℓ → Type ℓ
Dict V = String → Option V

module _ {ℓ} {V : Type ℓ} where
  abbrev pub empty : Dict V
  empty k = none

  -- `d[k] = v`
  unfoldable pub put : Dict V → String → V → String → Option V
  put d k v j = if str_eq k j then some v else d j

  -- `d.pop(k, None)`
  unfoldable pub remove : Dict V → String → String → Option V
  remove d k j = if str_eq k j then none else d j

  pub put_lem :
      (d : Dict V) (k : String) (v : V) (j : String)
      → put d k v j ≡ (if str_eq k j then some v else d j)
  unfolding put
  put_lem d k v j = ground arith

  pub put_same :
      (d : Dict V) (k : String) (v : V) (j : String) → str_eq k j ≡ true → put d k v j ≡ some v
  unfolding put
  put_same d k v j h = rw h

  pub put_other :
      (d : Dict V) (k : String) (v : V) (j : String) → str_eq k j ≡ false → put d k v j ≡ d j
  unfolding put
  put_other d k v j h = rw h

  pub put_self : (d : Dict V) (k : String) (v : V) → put d k v k ≡ some v
  unfolding put
  put_self d k v = rw (eq_refl k)

  pub remove_lem : (d : Dict V) (k j : String) → remove d k j ≡ (if str_eq k j then none else d j)
  unfolding remove
  remove_lem d k j = ground arith

abbrev pub is_some {ℓ} : {V : Type ℓ} → Option V → Bool
is_some none = false
is_some (some v) = true

-- `k in d`
abbrev pub has {ℓ} : {V : Type ℓ} → Dict V → String → Bool
has d k = is_some (d k)
