-- ===== src/Prelude/Text.antt =====
-- Rust's `str` as its list of Unicode scalar values, with the operations of the standard library
-- that the program calls. `byte_len` is `len()`, the length in UTF-8.
pub mod Ascii
pub mod Split
pub mod Decimal
pub mod Hex
use Prim.Native.Nat.{ℕ, ◌+◌}
use Prim.Native.Char.{code}
use Prim.Native.String.{String}
use mathlib.Core.Bool.{Bool, true, false, ◌&&◌, ◌||◌}
use mathlib.Core.Option.{Option, none, some}
use mathlib.Core.Option
use mathlib.Core.List.{List, [], ◌∷◌, reverse}
use seter.Prelude.Tests.{leb, eqb, if◌then◌else◌}
use seter.Prelude.Eq.{Eq, ◌==◌, list_eq, nat_eq}
use seter.Prelude.Lists.{any}

abbrev pub Text : Type 0
Text = List ℕ

-- The characters of a literal.
abbrev pub text : String → Text
text String.[] = []
text (String.◌∷◌ c s) = code c ∷ text s

abbrev pub utf8_len : ℕ → ℕ
utf8_len c = if leb c 127 then 1 else if leb c 2047 then 2 else if leb c 65535 then 3 else 4

abbrev pub byte_len : Text → ℕ
byte_len [] = 0
byte_len (c ∷ s) = utf8_len c + byte_len s

abbrev pub strip_prefix : Text → Text → Option Text
strip_prefix [] s = some s
strip_prefix (p ∷ ps) [] = none
strip_prefix (p ∷ ps) (c ∷ s) = if eqb p c then strip_prefix ps s else none

abbrev pub starts_with : Text → Text → Bool
starts_with [] s = true
starts_with (p ∷ ps) [] = false
starts_with (p ∷ ps) (c ∷ s) = eqb p c && starts_with ps s

abbrev pub strip_suffix : Text → Text → Option Text
strip_suffix p [] = if p == [] then some [] else none
strip_suffix p (c ∷ s) =
    let shorter = Option.map (λ r. c ∷ r) (strip_suffix p s) in
    if (c ∷ s) == p then some [] else shorter

abbrev pub ends_with : Text → Text → Bool
ends_with p [] = p == []
ends_with p (c ∷ s) = (c ∷ s) == p || ends_with p s

-- `contains` of one character, and of a text.
abbrev pub contains_char : ℕ → Text → Bool
contains_char c s = any (λ d. eqb d c) s

abbrev pub contains_text : Text → Text → Bool
contains_text p [] = p == []
contains_text p (c ∷ s) = starts_with p (c ∷ s) || contains_text p s

-- `char::is_whitespace`: the White_Space property of Unicode.
abbrev pub is_whitespace : ℕ → Bool
is_whitespace c =
    (leb 9 c && leb c 13)
    || eqb c 32
    || eqb c 0x85
    || eqb c 0xa0
    || eqb c 0x1680
    || (leb 0x2000 c && leb c 0x200a)
    || eqb c 0x2028
    || eqb c 0x2029
    || eqb c 0x202f
    || eqb c 0x205f
    || eqb c 0x3000

abbrev pub trim_start : Text → Text
trim_start [] = []
trim_start (c ∷ s) = let rest = trim_start s in if is_whitespace c then rest else c ∷ s

abbrev pub trim_end : Text → Text
trim_end s = reverse (trim_start (reverse s))

abbrev pub trim : Text → Text
trim s = trim_end (trim_start s)
