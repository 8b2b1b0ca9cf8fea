-- ===== src/Base/Text.antt =====
-- Strings as lists of bytes, with what the source uses of the standard library: the bytes of a
-- literal, equality, the check of `String::from_utf8`, and `parse::<u64>` on decimal digits.
use Prim.Native.Nat.{ℕ, ◌+◌, ◌-◌, ◌*◌, ◌^◌}
use Prim.Native.String.{String}
use Prim.Native.Char.{code}
use mathlib.Core.Bool.{Bool, true, false, ◌&&◌}
use mathlib.Core.Option.{Option, none, some}
use mathlib.Core.List.{List, [], ◌∷◌}
use learntorrent.Base.Tests.{ltb, leb, ◌==◌, if◌then◌else◌}

-- The bytes of an ASCII literal.
abbrev pub bytes : String → List ℕ
bytes String.[] = []
bytes (String.◌∷◌ c s) = code c ∷ bytes s

unfoldable pub same_text : List ℕ → List ℕ → Bool
same_text [] [] = true
same_text (x ∷ xs) (y ∷ ys) = x == y && same_text xs ys
same_text _ _ = false

-- In the middle of a character: `need` bytes are to come, the next of them from `lo` to `hi`.
pub record Utf8 : Type 0 where
  pub need : ℕ
  pub lo : ℕ
  pub hi : ℕ

-- The first byte of a character, by the table of well-formed sequences.
utf8_lead : ℕ → Option Utf8
utf8_lead b =
    if ltb b 0x80
    then some (record { need = 0; lo = 0; hi = 0 })
    else if ltb b 0xC2
    then none
    else if ltb b 0xE0
    then some (record { need = 1; lo = 0x80; hi = 0xBF })
    else if b == 0xE0
    then some (record { need = 2; lo = 0xA0; hi = 0xBF })
    else if b == 0xED
    then some (record { need = 2; lo = 0x80; hi = 0x9F })
    else if ltb b 0xF0
    then some (record { need = 2; lo = 0x80; hi = 0xBF })
    else if b == 0xF0
    then some (record { need = 3; lo = 0x90; hi = 0xBF })
    else if ltb b 0xF4
    then some (record { need = 3; lo = 0x80; hi = 0xBF })
    else if b == 0xF4
    then some (record { need = 3; lo = 0x80; hi = 0x8F })
    else none

utf8_step : Utf8 → ℕ → Option Utf8
unfolding utf8_lead
utf8_step s b =
    if s.need == 0
    then utf8_lead b
    else if leb s.lo b && leb b s.hi
    then some (record { need = s.need - 1; lo = 0x80; hi = 0xBF })
    else none

utf8_from : Option Utf8 → List ℕ → Bool
unfolding utf8_step
utf8_from none bs = false
utf8_from (some s) [] = s.need == 0
utf8_from (some s) (b ∷ bs) = utf8_from (utf8_step s b) bs

-- Whether `String::from_utf8` takes the bytes.
unfoldable pub is_utf8 : List ℕ → Bool
unfolding utf8_from
is_utf8 bs = utf8_from (some (record { need = 0; lo = 0; hi = 0 })) bs

abbrev pub is_digit : ℕ → Bool
is_digit b = leb b'0' b && leb b b'9'

unfoldable pub decimal : ℕ → List ℕ → ℕ
decimal acc [] = acc
decimal acc (d ∷ ds) = decimal (10 * acc + (d - b'0')) ds

-- `parse::<u64>` on ASCII digits: an empty text and an overflow are errors.
unfoldable pub parse_u64 : List ℕ → Option ℕ
unfolding decimal
parse_u64 [] = none
parse_u64 (d ∷ ds) = let n = decimal 0 (d ∷ ds) in if ltb n (2 ^ 64) then some n else none
