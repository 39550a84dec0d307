-- ===== src/Exec/Preserves.antt =====
-- Invariants of an object along its methods. An exception in the middle leaves what was written, so
-- an invariant has to hold then too.
use speaker_attributed_stt.Exec.{Exec}

module _ {S : Type 0} (P : S → Type 0) where
  -- Whether the method returns or raises, it leaves an object of which `P` holds.
  abbrev pub Preserves : {A : Type 0} → Exec S A → Type 0
  Preserves m = (s : S) → P s → P (m s).1
