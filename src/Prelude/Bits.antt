-- ===== src/Prelude/Bits.antt =====
-- `&` with a mask of ones above `k` zeros, and a check of every value below a bound.
use Prim.Native.Nat.{
  ℕ, zero, suc, ◌+◌, ◌*◌, ◌/◌, ◌%◌, ◌≤◌, ◌<◌, min, digits, bit_and, bit_and-bitwise,
}
use mathlib.Core.Path.{◌≡◌, refl, sym}
use mathlib.Core.Bool.{Bool, true, ◌&&◌}
use native.Mathlib.Omega.{arith}

-- Whether a test holds for each number below a bound.
unfoldable pub holds_below : (ℕ → Bool) → ℕ → Bool
holds_below test zero = true
holds_below test (suc bound) = holds_below test bound && test bound

pub holds_below-at :
    (test : ℕ → Bool) (bound n : ℕ) → n < bound → holds_below test bound ≡ true → test n ≡ true
unfolding holds_below
holds_below-at test zero n lt all = absurd (omega arith)
holds_below-at test (suc bound) n lt all = ground (arith, holds_below-at test bound n)

-- The number of `j` binary ones.
abbrev pub ones : ℕ → ℕ
ones zero = 0
ones (suc j) = ones j * 2 + 1

abbrev pub double : ℕ → ℕ → ℕ
double zero n = n
double (suc k) n = double k n * 2

-- Halving `k` times, and what is left of `j` binary digits.
abbrev pub halve : ℕ → ℕ → ℕ
halve zero n = n
halve (suc k) n = halve k (n / 2)

abbrev pub low : ℕ → ℕ → ℕ
low zero n = 0
low (suc j) n = low j (n / 2) * 2 + n % 2

abbrev and_digits : ℕ → ℕ → ℕ → ℕ
and_digits fuel a b = digits (λ c. zero) min fuel a b

and_none : (fuel a : ℕ) → and_digits fuel a 0 ≡ 0
and_none zero a = refl
and_none (suc fuel) zero = refl
and_none (suc fuel) (suc a) = omega (arith, and_none fuel (suc a / 2))

low_zero : (j : ℕ) → low j 0 ≡ 0
low_zero zero = refl
low_zero (suc j) = omega (arith, low_zero j)

halve_zero : (k : ℕ) → halve k 0 ≡ 0
halve_zero zero = refl
halve_zero (suc k) = halve_zero k

double_zero : (k : ℕ) → double k 0 ≡ 0
double_zero zero = refl
double_zero (suc k) = omega (arith, double_zero k)

mask_zero : (k j : ℕ) → double k (low j (halve k 0)) ≡ 0
mask_zero k j = rw (halve_zero k, low_zero j) (double_zero k)

and_ones : (j fuel a : ℕ) → a ≤ fuel → and_digits fuel a (ones j) ≡ low j a
and_ones zero fuel a h = and_none fuel a
and_ones (suc j) zero zero h = omega (arith, low_zero j)
and_ones (suc j) zero (suc a) h = absurd (omega arith)
and_ones (suc j) (suc fuel) zero h = omega (arith, low_zero j)
and_ones (suc j) (suc fuel) (suc a) h =
    let half : (ones j * 2 + 1) / 2 ≡ ones j = omega arith in
    rw half (omega (arith, and_ones j fuel (suc a / 2) (omega arith)))

and_mask :
    (k j fuel a : ℕ)
    → a ≤ fuel
    → and_digits fuel a (double k (ones j)) ≡ double k (low j (halve k a))
and_mask zero j fuel a h = and_ones j fuel a h
and_mask (suc k) j zero zero h = sym (mask_zero (suc k) j)
and_mask (suc k) j zero (suc a) h = absurd (omega arith)
and_mask (suc k) j (suc fuel) zero h = sym (mask_zero (suc k) j)
and_mask (suc k) j (suc fuel) (suc a) h =
    let half : double k (ones j) * 2 / 2 ≡ double k (ones j) = omega arith in
    rw half (omega (arith, and_mask k j fuel (suc a / 2) (omega arith)))

-- `a & mask` for `j` ones above `k` zeros keeps `j` digits above the lowest `k`.
pub bit_and-mask : (k j a : ℕ) → bit_and a (double k (ones j)) ≡ double k (low j (halve k a))
bit_and-mask k j a = rw bit_and-bitwise (and_mask k j a a (omega arith))

-- A number with no more than `j` digits is its own lowest `j` digits.
pub low_all : (j n : ℕ) → n < double j 1 → low j n ≡ n
low_all zero n h = omega arith
low_all (suc j) n h = omega (arith, low_all j (n / 2) (omega arith))

pub halve-lt : (k m n : ℕ) → n < double k m → halve k n < m
halve-lt zero m n h = h
halve-lt (suc k) m n h = halve-lt k m (n / 2) (omega arith)

pub double_inj : (k m n : ℕ) → double k m ≡ double k n → m ≡ n
double_inj zero m n h = h
double_inj (suc k) m n h = double_inj k m n (omega arith)
