-- ===== src/Prelude/Text/Hex.antt =====
-- Hexadecimal numbers: `from_str_radix(s, 16)`, and digits that it reads back.
use Prim.Native.Nat.{ℕ, zero, suc, ◌+◌, ◌-◌, ◌*◌, ◌/◌, ◌%◌, ◌≤◌, ◌<◌}
use mathlib.Core.Path.{◌≡◌, refl, ◌∙◌}
use mathlib.Core.Bool.{Bool, true, false, not, ◌&&◌, ◌||◌}
use mathlib.Core.Logic.{inl, inr}
use mathlib.Core.List.{[], ◌∷◌, ◌++◌}
use mathlib.Core.Option.{Option, none, some}
use native.Mathlib.Omega.{arith}
use seter.Prelude.Tests.{eqb, ltb, leb, if◌then◌else◌, Bool-cases}
use seter.Prelude.Lists.{all, is_empty}
use seter.Prelude.Text.{Text}
use seter.Prelude.Text.Ascii.{is_ascii_digit}

abbrev pub is_hex_digit : ℕ → Bool
is_hex_digit c = is_ascii_digit c || (leb b'a' c && leb c b'f') || (leb b'A' c && leb c b'F')

abbrev hex_value : ℕ → ℕ
hex_value c = if leb c b'9' then c - b'0' else if leb c b'F' then c - 55 else c - 87

unfoldable pub hex_value_from : ℕ → Text → ℕ
hex_value_from n [] = n
hex_value_from n (c ∷ s) = hex_value_from (n * 16 + hex_value c) s

unfoldable pub parse_hex_digits : ℕ → Text → Option ℕ
unfolding hex_value_from
parse_hex_digits bound s =
    let n = hex_value_from 0 s in
    if not (is_empty s) && all is_hex_digit s && ltb n bound then some n else none

unfoldable pub parse_hex : ℕ → Text → Option ℕ
unfolding parse_hex_digits
parse_hex bound [] = none
parse_hex bound (c ∷ s) =
    if eqb c b'+' then parse_hex_digits bound s else parse_hex_digits bound (c ∷ s)

abbrev hex_digit : ℕ → ℕ
hex_digit n = if ltb n 10 then b'0' + n else 87 + n

-- The digits of a number, at least one. As many rounds as the number itself are enough.
hexadecimal_from : ℕ → ℕ → Text
hexadecimal_from zero n = hex_digit (n % 16) ∷ []
hexadecimal_from (suc fuel) n =
    let more = hexadecimal_from fuel (n / 16) ++ hex_digit (n % 16) ∷ [] in
    if ltb n 16 then hex_digit (n % 16) ∷ [] else more

unfoldable pub hexadecimal : ℕ → Text
unfolding hexadecimal_from
hexadecimal n = hexadecimal_from n n

hex_value-hex_digit : (n : ℕ) → n < 16 → hex_value (hex_digit n) ≡ n
hex_value-hex_digit n h = ground arith

hex_value_from-append :
    (n : ℕ) (s t : Text) → hex_value_from n (s ++ t) ≡ hex_value_from (hex_value_from n s) t
unfolding hex_value_from
hex_value_from-append n [] t = refl
hex_value_from-append n (c ∷ s) t = hex_value_from-append (n * 16 + hex_value c) s t

value-hexadecimal_from : (fuel n : ℕ) → n ≤ fuel → hex_value_from 0 (hexadecimal_from fuel n) ≡ n
unfolding hexadecimal_from hex_value_from
value-hexadecimal_from zero n h = ground (arith, hex_value-hex_digit (n % 16))
value-hexadecimal_from (suc fuel) n h = elim (Bool-cases (ltb n 16)) [
  | inl small ↦ rw small (ground (arith, hex_value-hex_digit (n % 16)))
  | inr large ↦
      rw (large, hex_value_from-append 0 (hexadecimal_from fuel (n / 16)) (hex_digit (n % 16) ∷ []))
        (rw
          (
            value-hexadecimal_from fuel (n / 16) (ground arith),
            hex_value-hex_digit (n % 16) (omega arith),
          )
          (ground arith))
]

digits-append :
    (s t : Text)
    → all is_hex_digit s ≡ true
    → all is_hex_digit t ≡ true
    → all is_hex_digit (s ++ t) ≡ true
digits-append [] t h k = k
digits-append (c ∷ s) t h k = ground (arith, digits-append s t, k)

hex_digit-digit : (n : ℕ) → n < 16 → is_hex_digit (hex_digit n) ≡ true
hex_digit-digit n h = ground arith

hexadecimal_from-digits : (fuel n : ℕ) → all is_hex_digit (hexadecimal_from fuel n) ≡ true
unfolding hexadecimal_from
hexadecimal_from-digits zero n = rw (hex_digit-digit (n % 16) (omega arith)) refl
hexadecimal_from-digits (suc fuel) n = elim (Bool-cases (ltb n 16)) [
  | inl small ↦ rw (small, hex_digit-digit (n % 16) (omega arith)) refl
  | inr large ↦ rw large (
      digits-append (hexadecimal_from fuel (n / 16)) (hex_digit (n % 16) ∷ [])
        (hexadecimal_from-digits fuel (n / 16)) (rw (hex_digit-digit (n % 16) (omega arith)) refl))
]

pub hexadecimal-digits : (n : ℕ) → all is_hex_digit (hexadecimal n) ≡ true
unfolding hexadecimal
hexadecimal-digits n = hexadecimal_from-digits n n

hexadecimal_from-filled : (fuel n : ℕ) → is_empty (hexadecimal_from fuel n) ≡ false
unfolding hexadecimal_from
hexadecimal_from-filled zero n = refl
hexadecimal_from-filled (suc fuel) n = elim (Bool-cases (ltb n 16)) [
  | inl small ↦ rw small refl
  | inr large ↦ rw large (filled (hexadecimal_from fuel (n / 16)))
]
  where
    filled : (s : Text) → is_empty (s ++ hex_digit (n % 16) ∷ []) ≡ false
    filled [] = refl
    filled (c ∷ s) = refl

parse_hex-unsigned :
    (bound : ℕ) (s : Text)
    → all is_hex_digit s ≡ true
    → is_empty s ≡ false
    → parse_hex bound s ≡ parse_hex_digits bound s
unfolding parse_hex
parse_hex-unsigned bound [] k filled = ground (arith, filled)
parse_hex-unsigned bound (c ∷ s) k filled = ground arith

parse_hex_digits-hexadecimal :
    (bound n : ℕ) → n < bound → parse_hex_digits bound (hexadecimal n) ≡ some n
unfolding hexadecimal parse_hex_digits
parse_hex_digits-hexadecimal bound n h =
    rw
      (
        hexadecimal_from-filled n n,
        hexadecimal_from-digits n n,
        value-hexadecimal_from n n (omega arith),
      )
      (ground arith)

pub hexadecimal-filled : (n : ℕ) → is_empty (hexadecimal n) ≡ false
unfolding hexadecimal
hexadecimal-filled n = hexadecimal_from-filled n n

-- `from_str_radix` reads a printed number back.
pub parse_hex-hexadecimal : (bound n : ℕ) → n < bound → parse_hex bound (hexadecimal n) ≡ some n
parse_hex-hexadecimal bound n h =
    parse_hex-unsigned bound (hexadecimal n) (hexadecimal-digits n) (hexadecimal-filled n)
    ∙ parse_hex_digits-hexadecimal bound n h
