-- ===== src/Queue/Keys.antt =====
-- src/sastt/adapters/queue/redis_queue.py: the three lists of a queue stand under different keys.
use Prim.Native.String.{len, slice, ◌++◌ as join}
use text.Mathlib.TextLemmas.{append_assoc, append_cancel_left}
use text.Mathlib.TextPositions.{slice-append_left}
use speaker_attributed_stt.Prelude.{
  zero, String, false, ◌≡◌, refl, sym, ◌∙◌, ap, inl, inr, str_eq, eq_iff, Bool-cases,
}
use speaker_attributed_stt.Queue.Tasks.{RedisTaskQueue, key, processing_key, dead_key}

heads_agree : (p q x y : String) → len p ≡ len q → join p x ≡ join q y → p ≡ q
heads_agree p q x y same h =
    sym (slice-append_left p x)
    ∙ ap (λ t. slice t zero (len p)) h
    ∙ ap (slice (join q y) zero) same
    ∙ slice-append_left q y

keys_agree :
    (ns p q a b x y : String)
    → len p ≡ len q
    → join ns (join (join p a) x) ≡ join ns (join (join q b) y)
    → p ≡ q
keys_agree ns p q a b x y same h =
    heads_agree p q (join a x) (join b y) same
      (sym (append_assoc p a x) ∙ append_cancel_left ns _ _ h ∙ append_assoc q b y)

not_eq : (a b : String) → (a ≡ b → ⊥) → str_eq a b ≡ false
not_eq a b h = elim (Bool-cases (str_eq a b)) [ inl e ↦ absurd (h ((eq_iff a b).0 e)) | inr e ↦ e ]

differ : (a b : String) → str_eq a b ≡ false → a ≡ b → ⊥
differ a b h e = let same = (eq_iff a b).1 e in cc

-- Two keys of one name space whose kinds differ in the first letter.
apart :
    (ns p q a b x y : String)
    → len p ≡ len q
    → str_eq p q ≡ false
    → str_eq (join ns (join (join p a) x)) (join ns (join (join q b) y)) ≡ false
apart ns p q a b x y same d = not_eq _ _ λ h. differ p q d (keys_agree ns p q a b x y same h)

module _ (c : RedisTaskQueue) (queue consumer other : String) where
  pub key-ne-processing : str_eq (key c queue) (processing_key c other consumer) ≡ false
  unfolding key processing_key
  key-ne-processing = apart c.namespace ":q" ":p" "ueue:" "rocessing:" queue _ refl refl

  pub processing-ne-key : str_eq (processing_key c other consumer) (key c queue) ≡ false
  unfolding key processing_key
  processing-ne-key = apart c.namespace ":p" ":q" "rocessing:" "ueue:" _ queue refl refl

  pub processing-ne-dead : str_eq (processing_key c other consumer) (dead_key c queue) ≡ false
  unfolding dead_key processing_key
  processing-ne-dead = apart c.namespace ":p" ":d" "rocessing:" "ead:" _ queue refl refl

  pub dead-ne-processing : str_eq (dead_key c queue) (processing_key c other consumer) ≡ false
  unfolding dead_key processing_key
  dead-ne-processing = apart c.namespace ":d" ":p" "ead:" "rocessing:" queue _ refl refl

module _ (c : RedisTaskQueue) (queue other : String) where
  pub key-ne-dead : str_eq (key c queue) (dead_key c other) ≡ false
  unfolding key dead_key
  key-ne-dead = apart c.namespace ":q" ":d" "ueue:" "ead:" queue other refl refl

  pub dead-ne-key : str_eq (dead_key c other) (key c queue) ≡ false
  unfolding key dead_key
  dead-ne-key = apart c.namespace ":d" ":q" "ead:" "ueue:" other queue refl refl
