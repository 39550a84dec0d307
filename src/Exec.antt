-- ===== src/Exec.antt =====
-- Methods that change an object and may raise. What was written before an exception stays written,
-- so the object comes back beside the error too.
pub mod Preserves
use mathlib.Core.Path.{◌≡◌, refl}
use speaker_attributed_stt.Errors.{Error, Result, ok, err}

abbrev pub Exec {ℓ} : Type ℓ → Type ℓ → Type ℓ
Exec S A = S → Result A × S

module _ {ℓ} {S A : Type ℓ} where
  abbrev pub pure : A → Exec S A
  pure a s = (ok a, s)

  abbrev pub raise : Error → Exec S A
  raise e s = (err e, s)

  abbrev pub lift : Result A → Exec S A
  lift r s = (r, s)

  abbrev pub reads : (S → A) → Exec S A
  reads f s = (ok (f s), s)

  abbrev pub tries : (S → Result A) → Exec S A
  tries f s = (f s, s)

abbrev pub modify : {S : Type 0} → (S → S) → Exec S (Unit {0})
modify f s = (ok tt, f s)

module _ {ℓ} {S A B : Type ℓ} where
  abbrev pub continue : Result A → (A → Exec S B) → Exec S B
  continue (ok a) f s = f a s
  continue (err e) f s = (err e, s)

  infixl 5 ◌>>=◌ ◌>>◌
  abbrev pub ◌>>=◌ : Exec S A → (A → Exec S B) → Exec S B
  ◌>>=◌ m f s = let (r, s') = m s in continue r f s'

  abbrev pub ◌>>◌ : Exec S A → Exec S B → Exec S B
  m >> n = m >>= λ _. n

  -- Inversion of a step that succeeded.
  pub continue-eq-ok :
      (r : Result A) (k : A → Exec S B) (s s' : S) (b : B)
      → continue r k s ≡ (ok b, s')
      → (a : A) × (r ≡ ok a) × (k a s ≡ (ok b, s'))
  continue-eq-ok (ok a) k s s' b h = (a, refl, h)
  continue-eq-ok (err e) k s s' b h = cc
