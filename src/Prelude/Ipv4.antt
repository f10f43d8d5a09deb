-- ===== src/Prelude/Ipv4.antt =====
-- `std::net::Ipv4Addr`: four octets, its `FromStr`, its `Display` and its value as a `u32`.
use Prim.Native.Nat.{ℕ, ◌+◌, ◌*◌, ◌<◌}
use mathlib.Core.Path.{◌≡◌}
use mathlib.Core.Logic.{◌↔◌}
use mathlib.Core.Bool.{Bool, true, false, not, ◌&&◌}
use mathlib.Core.List.{List, [], ◌∷◌, ◌++◌}
use mathlib.Core.Option.{Option, none, some}
use native.Mathlib.Omega.{arith}
use seter.Prelude.Tests.{eqb, leb, ltb, if◌then◌else◌}
use seter.Prelude.Eq.{Eq, nat_eq}
use seter.Prelude.Lists.{all, is_empty, length}
use seter.Prelude.Text.{Text}
use seter.Prelude.Text.Ascii.{is_ascii_digit}
use seter.Prelude.Text.Split.{split}
use seter.Prelude.Text.Decimal.{value_from, decimal}

pub record Ipv4Addr : Type 0 where
  pub a : ℕ
  pub b : ℕ
  pub c : ℕ
  pub d : ℕ

-- The octets are bytes.
pub record IsAddress (x : Ipv4Addr) : Type 0 where
  pub a_byte : x.a < 256
  pub b_byte : x.b < 256
  pub c_byte : x.c < 256
  pub d_byte : x.d < 256

abbrev pub address_beq : Ipv4Addr → Ipv4Addr → Bool
address_beq x y = eqb x.a y.a && eqb x.b y.b && eqb x.c y.c && eqb x.d y.d

pub address_beq_iff : (x y : Ipv4Addr) → (address_beq x y ≡ true) ↔ (x ≡ y)
address_beq_iff x y = ground arith

instance abbrev pub address_eq : Eq Ipv4Addr
address_eq = record { beq = address_beq; beq_iff = address_beq_iff }

-- A leading zero is accepted only as the whole octet.
abbrev leading_zero : Text → Bool
leading_zero [] = false
leading_zero (x ∷ []) = false
leading_zero (x ∷ y ∷ s) = eqb x b'0'

unfoldable pub octet : Text → Option ℕ
unfolding value_from
octet s =
    let n = value_from 0 s in
    if not (is_empty s)
      && leb (length s) 3
      && all is_ascii_digit s
      && not (leading_zero s)
      && ltb n 256
    then some n
    else none

octets : List Text → Option Ipv4Addr
unfolding octet
octets (p ∷ q ∷ r ∷ s ∷ []) = elim (octet p) [
  | none ↦ none
  | some a ↦ elim (octet q) [
    | none ↦ none
    | some b ↦ elim (octet r) [
      | none ↦ none
      | some c ↦ elim (octet s) [
        | none ↦ none
        | some d ↦ some (record { a = a; b = b; c = c; d = d })
      ]
    ]
  ]
]
octets _ = none

-- `text.parse::<Ipv4Addr>()`
unfoldable pub parse_ipv4 : Text → Option Ipv4Addr
unfolding octets
parse_ipv4 s = octets (split b'.' s)

abbrev dotted : Text → Text → Text
dotted s t = s ++ (b'.' ∷ t)

-- `address.to_string()`
unfoldable pub to_string : Ipv4Addr → Text
unfolding decimal
to_string x = dotted (decimal x.a) (dotted (decimal x.b) (dotted (decimal x.c) (decimal x.d)))

-- `u32::from(address)`
unfoldable pub to_u32 : Ipv4Addr → ℕ
to_u32 x = ((x.a * 256 + x.b) * 256 + x.c) * 256 + x.d
