-- ===== src/Prelude/Text/Ascii.antt =====
-- ASCII classes and lower case.
use Prim.Native.Nat.{ℕ, ◌+◌}
use mathlib.Core.Path.{◌≡◌, refl}
use mathlib.Core.Bool.{Bool, ◌&&◌, ◌||◌}
use mathlib.Core.List.{[], ◌∷◌, map}
use native.Mathlib.Omega.{arith}
use seter.Prelude.Tests.{leb, eqb, if◌then◌else◌}
use seter.Prelude.Eq.{◌==◌, list_eq, nat_eq}
use seter.Prelude.Lists.{all}
use seter.Prelude.Text.{Text, byte_len, utf8_len}

abbrev pub is_ascii_digit : ℕ → Bool
is_ascii_digit c = leb b'0' c && leb c b'9'

abbrev pub is_ascii_uppercase : ℕ → Bool
is_ascii_uppercase c = leb b'A' c && leb c b'Z'

abbrev pub is_ascii_lowercase : ℕ → Bool
is_ascii_lowercase c = leb b'a' c && leb c b'z'

abbrev pub is_ascii_alphanumeric : ℕ → Bool
is_ascii_alphanumeric c = is_ascii_digit c || is_ascii_uppercase c || is_ascii_lowercase c

unfoldable pub lower : ℕ → ℕ
lower c = if is_ascii_uppercase c then c + 32 else c

abbrev pub to_ascii_lowercase : Text → Text
to_ascii_lowercase s = map lower s

abbrev pub eq_ignore_ascii_case : Text → Text → Bool
eq_ignore_ascii_case a b = to_ascii_lowercase a == to_ascii_lowercase b

pub lower_idem : (c : ℕ) → lower (lower c) ≡ lower c
unfolding lower
lower_idem c = ground arith

pub eqb-lower_dot : (c : ℕ) → eqb (lower c) b'.' ≡ eqb c b'.'
unfolding lower
eqb-lower_dot c = ground arith

pub is_ascii_digit-lower : (c : ℕ) → is_ascii_digit (lower c) ≡ is_ascii_digit c
unfolding lower
is_ascii_digit-lower c = ground arith

pub is_ascii_alphanumeric-lower :
    (c : ℕ) → is_ascii_alphanumeric (lower c) ≡ is_ascii_alphanumeric c
unfolding lower
is_ascii_alphanumeric-lower c = ground arith

pub eqb-lower_hyphen : (c : ℕ) → eqb (lower c) b'-' ≡ eqb c b'-'
unfolding lower
eqb-lower_hyphen c = ground arith

pub utf8_len-lower : (c : ℕ) → utf8_len (lower c) ≡ utf8_len c
unfolding lower
utf8_len-lower c = ground arith

pub lower_of_digit : (c : ℕ) → (is_ascii_digit c || eqb c b'.') ≡ Bool.true → lower c ≡ c
unfolding lower
lower_of_digit c h = ground arith

pub to_ascii_lowercase_idem :
    (s : Text) → to_ascii_lowercase (to_ascii_lowercase s) ≡ to_ascii_lowercase s
to_ascii_lowercase_idem [] = refl
to_ascii_lowercase_idem (c ∷ s) = cc (lower_idem c, to_ascii_lowercase_idem s)

pub byte_len-to_ascii_lowercase : (s : Text) → byte_len (to_ascii_lowercase s) ≡ byte_len s
byte_len-to_ascii_lowercase [] = refl
byte_len-to_ascii_lowercase (c ∷ s) = rw (utf8_len-lower c, byte_len-to_ascii_lowercase s)

pub all-to_ascii_lowercase :
    (p : ℕ → Bool) (h : (c : ℕ) → p (lower c) ≡ p c) (s : Text)
    → all p (to_ascii_lowercase s) ≡ all p s
all-to_ascii_lowercase p h [] = refl
all-to_ascii_lowercase p h (c ∷ s) = rw (h c, all-to_ascii_lowercase p h s)
