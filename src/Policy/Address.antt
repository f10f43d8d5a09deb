-- ===== src/Policy/Address.antt =====
-- `address_in_network` and `private_upstream_address`.
pub mod Networks
use Prim.Native.Nat.{bit_and}
use seter.Prelude.{
  ℕ, ◌+◌, ◌-◌, ◌*◌, ◌%◌, ◌^◌, Bool, true, false, ◌&&◌, Option, none, some, List, [], ◌∷◌, any, eqb,
  ltb, if◌then◌else◌,
}
use seter.Prelude.Eq.{◌==◌, nat_eq, list_eq}
use seter.Prelude.Text.{Text}
use seter.Prelude.Ipv4.{Ipv4Addr, parse_ipv4, to_string, to_u32}

abbrev u32_mod : ℕ
u32_mod = 2 ^ 32

-- `u32::MAX.checked_shl(32 - prefix).unwrap_or(0)`, where the difference wraps as a `u32`.
unfoldable pub prefix_mask : ℕ → ℕ
prefix_mask prefix =
    let shift = (32 + u32_mod - prefix) % u32_mod in
    if ltb shift 32 then (u32_mod - 1) * 2 ^ shift % u32_mod else 0

abbrev pub same_network : Ipv4Addr → ℕ → Ipv4Addr → Bool
same_network network prefix parsed =
    let mask = prefix_mask prefix in
    eqb (bit_and (to_u32 parsed) mask) (bit_and (to_u32 network) mask)

unfoldable pub address_in_network : Text → Ipv4Addr → ℕ → Bool
address_in_network address network prefix = elim (parse_ipv4 address) [
  | none ↦ false
  | some parsed ↦ same_network network prefix parsed
]

abbrev pub private_upstream_networks : List (Ipv4Addr × ℕ)
private_upstream_networks =
    (record { a = 10; b = 0; c = 0; d = 0 }, 8)
    ∷ (record { a = 100; b = 64; c = 0; d = 0 }, 10)
    ∷ (record { a = 172; b = 16; c = 0; d = 0 }, 12)
    ∷ (record { a = 192; b = 168; c = 0; d = 0 }, 16)
    ∷ []

abbrev pub is_canonical : Text → Bool
is_canonical address = elim (parse_ipv4 address) [
  | none ↦ false
  | some parsed ↦ to_string parsed == address
]

unfoldable pub private_upstream_address : Text → Bool
private_upstream_address address =
    is_canonical address
    && any (λ net. address_in_network address net.0 net.1) private_upstream_networks
