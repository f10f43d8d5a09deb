-- ===== src/Prelude/Text/Decimal.antt =====
-- Decimal numbers as the standard library prints and parses them.
use Prim.Native.Nat.{ℕ, zero, suc, ◌+◌, ◌-◌, ◌*◌, ◌/◌, ◌%◌, ◌≤◌}
use mathlib.Core.Path.{◌≡◌, refl, ap, sym, ◌∙◌}
use mathlib.Core.Bool.{true, not, ◌&&◌}
use mathlib.Core.Logic.{inl, inr}
use mathlib.Core.List.{[], ◌∷◌, ◌++◌}
use mathlib.Core.Option.{Option, none, some}
use native.Mathlib.Omega.{arith}
use seter.Prelude.Tests.{eqb, ltb, if◌then◌else◌, Bool-cases}
use seter.Prelude.Lists.{all, is_empty}
use seter.Prelude.Text.{Text}
use seter.Prelude.Text.Ascii.{is_ascii_digit}

-- The value of a row of digits after the digits of `n`.
unfoldable pub value_from : ℕ → Text → ℕ
value_from n [] = n
value_from n (c ∷ s) = value_from (n * 10 + (c - b'0')) s

-- `str::parse` of an unsigned type below `bound`: digits behind an optional plus sign.
unfoldable pub parse_digits : ℕ → Text → Option ℕ
unfolding value_from
parse_digits bound s =
    let n = value_from 0 s in
    if not (is_empty s) && all is_ascii_digit s && ltb n bound then some n else none

unfoldable pub parse_unsigned : ℕ → Text → Option ℕ
unfolding parse_digits
parse_unsigned bound [] = none
parse_unsigned bound (c ∷ s) =
    if eqb c b'+' then parse_digits bound s else parse_digits bound (c ∷ s)

-- `Display` of an unsigned type. As many rounds as the number itself are enough.
decimal_from : ℕ → ℕ → Text
decimal_from zero n = (b'0' + n % 10) ∷ []
decimal_from (suc fuel) n =
    let more = decimal_from fuel (n / 10) ++ (b'0' + n % 10) ∷ [] in
    if ltb n 10 then (b'0' + n % 10) ∷ [] else more

unfoldable pub decimal : ℕ → Text
unfolding decimal_from
decimal n = decimal_from n n

value_from-append : (n : ℕ) (s t : Text) → value_from n (s ++ t) ≡ value_from (value_from n s) t
unfolding value_from
value_from-append n [] t = refl
value_from-append n (c ∷ s) t = value_from-append (n * 10 + (c - b'0')) s t

value_from-decimal_from : (fuel n : ℕ) → n ≤ fuel → value_from 0 (decimal_from fuel n) ≡ n
unfolding decimal_from value_from
value_from-decimal_from zero n h = omega arith
value_from-decimal_from (suc fuel) n h = elim (Bool-cases (ltb n 10)) [
  | inl small ↦ rw small (ground arith)
  | inr large ↦
      rw (large, value_from-append 0 (decimal_from fuel (n / 10)) ((b'0' + n % 10) ∷ []))
        (rw (value_from-decimal_from fuel (n / 10) (ground arith)) (ground arith))
]

-- A printed number is read back.
pub value_from-decimal : (n : ℕ) → value_from 0 (decimal n) ≡ n
unfolding decimal
value_from-decimal n = value_from-decimal_from n n (omega arith)

pub decimal_inj : (m n : ℕ) → decimal m ≡ decimal n → m ≡ n
decimal_inj m n h = sym (value_from-decimal m) ∙ (ap (value_from 0) h ∙ value_from-decimal n)

all-append_digits :
    (s t : Text)
    → all is_ascii_digit s ≡ true
    → all is_ascii_digit t ≡ true
    → all is_ascii_digit (s ++ t) ≡ true
all-append_digits [] t h k = k
all-append_digits (c ∷ s) t h k = ground (arith, all-append_digits s t, k)

decimal_from-digits : (fuel n : ℕ) → n ≤ fuel → all is_ascii_digit (decimal_from fuel n) ≡ true
unfolding decimal_from
decimal_from-digits zero n h = ground arith
decimal_from-digits (suc fuel) n h = elim (Bool-cases (ltb n 10)) [
  | inl small ↦ rw small (ground arith)
  | inr large ↦ rw large (
      all-append_digits (decimal_from fuel (n / 10)) ((b'0' + n % 10) ∷ [])
        (decimal_from-digits fuel (n / 10) (ground arith)) (ground arith))
]

pub decimal-digits : (n : ℕ) → all is_ascii_digit (decimal n) ≡ true
unfolding decimal
decimal-digits n = decimal_from-digits n n (omega arith)
