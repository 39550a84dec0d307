-- ===== src/Events/Ulid.antt =====
-- src/sastt/domain/events.py: the Crockford base-32 text of a number, and the identifiers made of
-- it. A text is the list of its code points.
use mathlib.Core.Bool.{false≢true}
use native.Mathlib.Nat.{pow-suc}
use speaker_attributed_stt.Prelude.Text.{codes}
use Prim.Native.String.{String}
use speaker_attributed_stt.Prelude.{
  ap, ℕ, zero, suc, ◌+◌, ◌/◌, ◌%◌, ◌^◌, ◌≤◌, ◌<◌, ◌≡◌, refl, sym, ◌∙◌, Bool, true, false, ◌&&◌,
  ◌||◌, not, List, [], ◌∷◌, ◌++◌, arith, ltb, ◌==◌, ltb→lt, ltb→le, length, Bool-cases, inl, inr,
}

abbrev char_at : List ℕ → ℕ → ℕ
char_at [] i = 0
char_at (c ∷ cs) zero = c
char_at (c ∷ cs) (suc i) = char_at cs i

-- `_CROCKFORD[i]`
crockford : ℕ → ℕ
crockford i = char_at (codes "0123456789ABCDEFGHJKMNPQRSTVWXYZ") i

-- The loop, with the characters reversed as they are collected. `value & 0x1F` and `value >>= 5`.
encode_from : ℕ → ℕ → List ℕ → List ℕ
unfolding crockford
encode_from zero value chars = chars
encode_from (suc length) value chars =
    encode_from length (value / 2 ^ 5) (crockford (value % 2 ^ 5) ∷ chars)

unfoldable pub encode_crockford : ℕ → ℕ → List ℕ
unfolding encode_from
encode_crockford value length = encode_from length value []

-- `randomness` is the number that `os.urandom(10)` gives.
unfoldable pub new_ulid : ℕ → ℕ → List ℕ
unfolding encode_crockford
new_ulid timestamp randomness = encode_crockford timestamp 10 ++ encode_crockford randomness 16

unfoldable pub new_id : String → ℕ → ℕ → List ℕ
unfolding new_ulid
new_id prefix timestamp randomness = codes prefix ++ codes "_" ++ new_ulid timestamp randomness

-- Python's order of texts.
unfoldable pub text_lt : List ℕ → List ℕ → Bool
text_lt [] [] = false
text_lt [] (c ∷ cs) = true
text_lt (b ∷ bs) [] = false
text_lt (b ∷ bs) (c ∷ cs) = ltb b c || b == c && text_lt bs cs

-- The test holds of the digits from `start` on, as many as there are rounds.
holds_from : ℕ → ℕ → (ℕ → Bool) → Bool
holds_from start zero test = true
holds_from start (suc rounds) test = test start && holds_from (suc start) rounds test

holds_from-at :
    (start rounds : ℕ) (test : ℕ → Bool) (k : ℕ)
    → holds_from start rounds test ≡ true
    → k < rounds
    → test (start + k) ≡ true
unfolding holds_from
holds_from-at start zero test k all_hold within = absurd (omega arith)
holds_from-at start (suc rounds) test zero all_hold within =
    let here : start ≡ start + 0 = omega arith in ap test (sym here) ∙ ground arith
holds_from-at start (suc rounds) test (suc k) all_hold within =
    let shift : start + suc k ≡ suc start + k = omega arith in
    ap test shift ∙ holds_from-at (suc start) rounds test k (ground arith) (omega arith)

crockford_table :
    holds_from 0 32 (λ i. holds_from 0 32 (λ j. not (ltb i j) || ltb (crockford i) (crockford j)))
    ≡ true
unfolding holds_from crockford
crockford_table = refl

-- The digits are in the order of their values.
crockford_mono : (i j : ℕ) → i < j → j < 32 → crockford i < crockford j
crockford_mono i j h lt =
    let row = holds_from-at 0 32 _ i crockford_table (omega arith) in
    let cell = holds_from-at 0 32 _ j row lt in ground (arith, cell)

text_lt-head : (c d : ℕ) (a b : List ℕ) → c < d → text_lt (c ∷ a) (d ∷ b) ≡ true
unfolding text_lt
text_lt-head c d a b h = ground arith

encode_from-same :
    (length v : ℕ) (a b : List ℕ)
    → text_lt a b ≡ true
    → text_lt (encode_from length v a) (encode_from length v b) ≡ true
unfolding encode_from text_lt
encode_from-same zero v a b h = h
encode_from-same (suc n) v a b h = encode_from-same n (v / 32) _ _ (ground arith)

encode_from-lt :
    (length v w : ℕ) (a b : List ℕ)
    → v < w
    → w < 32 ^ length
    → text_lt (encode_from length v a) (encode_from length w b) ≡ true
unfolding encode_from
encode_from-lt zero v w a b h lt = absurd (omega arith)
encode_from-lt (suc n) v w a b h lt = elim (Bool-cases (ltb (v / 32) (w / 32))) [
  | inl less ↦
      encode_from-lt n (v / 32) (w / 32) _ _ (ltb→lt _ _ less) (omega (arith, pow-suc 32 n))
  | inr not_less ↦
      let le : w / 32 ≤ v / 32 = ltb→le _ _ not_less in
      let same : v / 32 ≡ w / 32 = omega arith in
      rw same (
        encode_from-same n (w / 32) _ _
          (text_lt-head _ _ a b (crockford_mono (v % 32) (w % 32) (omega arith) (omega arith))))
]

encode_from-length : (n v : ℕ) (chars : List ℕ) → length (encode_from n v chars) ≡ n + length chars
unfolding encode_from
encode_from-length zero v chars = omega arith
encode_from-length (suc n) v chars =
    omega (arith, encode_from-length n (v / 32) (crockford (v % 32) ∷ chars))

-- Of two numbers that fit in the length, the smaller one has the smaller text.
encode_crockford_sortable :
    (length v w : ℕ)
    → v < w
    → w < 32 ^ length
    → text_lt (encode_crockford v length) (encode_crockford w length) ≡ true
unfolding encode_crockford
encode_crockford_sortable length v w h lt = encode_from-lt length v w [] [] h lt

length-encode_crockford : (v n : ℕ) → length (encode_crockford v n) ≡ n
unfolding encode_crockford
length-encode_crockford v n = omega (arith, encode_from-length n v [])

text_lt-append :
    (a b x y : List ℕ) → length a ≡ length b → text_lt a b ≡ true → text_lt (a ++ x) (b ++ y) ≡ true
unfolding text_lt
text_lt-append [] [] x y e h = absurd (false≢true h)
text_lt-append [] (d ∷ b) x y e h = absurd (omega arith)
text_lt-append (c ∷ a) [] x y e h = absurd (omega arith)
text_lt-append (c ∷ a) (d ∷ b) x y e h = ground (arith, text_lt-append a b x y)

-- An identifier that is made in a later millisecond sorts behind the earlier one, whatever the two
-- random parts are, for times that fit in the ten digits.
pub new_ulid_sortable :
    (earlier later r s : ℕ)
    → earlier < later
    → later < 32 ^ 10
    → text_lt (new_ulid earlier r) (new_ulid later s) ≡ true
unfolding new_ulid
new_ulid_sortable earlier later r s h lt =
    text_lt-append (encode_crockford earlier 10) (encode_crockford later 10) _ _
      (length-encode_crockford earlier 10 ∙ sym (length-encode_crockford later 10))
      (encode_crockford_sortable 10 earlier later h lt)
