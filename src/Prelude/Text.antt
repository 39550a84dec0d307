-- ===== src/Prelude/Text.antt =====
-- The decimal text of a number, as Python's `str` and `format` write it, and `endswith`.
use Prim.Native.Char.{code}
use mathlib.Core.List.{List, [], ◌∷◌}
use Prim.Native.String.{String, len, slice, ◌++◌ as join}
use Prim.Native.Nat.{ℕ, zero, suc, ◌+◌, ◌-◌, ◌/◌, ◌%◌}
use mathlib.Core.Bool.{Bool, ◌&&◌}
use text.Mathlib.Text.{◌==◌ as str_eq}
use speaker_attributed_stt.Prelude.Tests.{leb}
use mathlib.Core.Path.{◌≡◌, refl}
use speaker_attributed_stt.Prelude.Tests.{ltb, ◌==◌, if◌then◌else◌}

-- The code points of a text.
abbrev pub codes : String → List ℕ
codes String.[] = []
codes (String.◌∷◌ c s) = code c ∷ codes s

digit_text : ℕ → String
digit_text d =
    if d == 0
    then "0"
    else if d == 1
    then "1"
    else if d == 2
    then "2"
    else if d == 3
    then "3"
    else if d == 4
    then "4"
    else if d == 5
    then "5"
    else if d == 6
    then "6"
    else if d == 7
    then "7"
    else if d == 8
    then "8"
    else "9"

-- Each round drops a digit, so the number of rounds is never more than the number itself and one.
decimal_from : ℕ → ℕ → String → String
unfolding digit_text
decimal_from zero n text = text
decimal_from (suc rounds) n text =
    let longer = join (digit_text (n % 10)) text in
    let rest = decimal_from rounds (n / 10) longer in if ltb n 10 then longer else rest

unfoldable pub decimal : ℕ → String
unfolding decimal_from
decimal n = decimal_from (n + 1) n ""

decimal_test : decimal 1205 ≡ "1205"
unfolding decimal
decimal_test = refl

-- `s.endswith(t)`
unfoldable pub ends_with : String → String → Bool
ends_with s t = leb (len t) (len s) && str_eq (slice s (len s - len t) (len s)) t
