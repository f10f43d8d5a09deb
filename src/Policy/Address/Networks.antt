-- ===== src/Policy/Address/Networks.antt =====
-- The networks that the prefix tests stand for.
use Prim.Native.Nat.{bit_and}
use seter.Prelude.{ℕ, ◌-◌, ◌<◌, ◌≤◌, ◌≡◌, ◌↔◌, refl, ap, sym, ◌∙◌, true, ◌&&◌, eqb, eqb_iff, arith}
use seter.Prelude.Bits.{
  holds_below, holds_below-at, ones, double, halve, bit_and-mask, low_all, halve-lt, double_inj,
}
use seter.Prelude.Ipv4.{Ipv4Addr, IsAddress, to_u32}
use seter.Policy.Address.{prefix_mask, same_network}

mask_table :
    holds_below
      (λ p.
        eqb (prefix_mask p) (double (32 - p) (ones p))
        && eqb (double (32 - p) (double p 1)) 4294967296)
      33
    ≡ true
unfolding holds_below prefix_mask
mask_table = refl

mask_facts :
    (p : ℕ)
    → p ≤ 32
    → (prefix_mask p ≡ double (32 - p) (ones p)) × (double (32 - p) (double p 1) ≡ 4294967296)
mask_facts p h =
    let row = holds_below-at _ 33 p (omega arith) mask_table in
    ((eqb_iff _ _).0 (ground (arith, row)), (eqb_iff _ _).0 (ground (arith, row)))

to_u32-lt : (x : Ipv4Addr) → IsAddress x → to_u32 x < 4294967296
unfolding to_u32
to_u32-lt x v = omega arith

masked :
    (p n : ℕ)
    → p ≤ 32
    → n < 4294967296
    → bit_and n (prefix_mask p) ≡ double (32 - p) (halve (32 - p) n)
masked p n h lt =
    let (mask, whole) = mask_facts p h in
    rw (
      mask,
      bit_and-mask (32 - p) p n,
      low_all p (halve (32 - p) n) (halve-lt (32 - p) (double p 1) n (rw whole lt)),
    )

-- Two addresses are in one network of a prefix of at most 32 bits exactly when they agree without
-- their lowest 32 - prefix bits.
pub same_network_iff :
    (net x : Ipv4Addr) (p : ℕ)
    → p ≤ 32
    → IsAddress net
    → IsAddress x
    → (same_network net p x ≡ true) ↔ (halve (32 - p) (to_u32 x) ≡ halve (32 - p) (to_u32 net))
same_network_iff net x p h vn vx =
    let mx = masked p (to_u32 x) h (to_u32-lt x vx) in
    let mn = masked p (to_u32 net) h (to_u32-lt net vn) in
    (
      λ e. double_inj (32 - p) _ _ (sym mx ∙ ((eqb_iff _ _).0 e ∙ mn)),
      λ e. (eqb_iff _ _).1 (mx ∙ (ap (double (32 - p)) e ∙ sym mn)),
    )
