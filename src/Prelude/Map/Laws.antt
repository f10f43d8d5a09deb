-- ===== src/Prelude/Map/Laws.antt =====
-- What is looked up after an insertion.
use Prim.Native.Nat.{Ordering}
use mathlib.Core.Path.{◌≡◌, refl, sym, ap, ◌∙◌}
use mathlib.Core.Logic.{inl, inr}
use mathlib.Core.List.{[], ◌∷◌}
use mathlib.Core.Option.{some}
use native.Mathlib.Omega.{arith}
use seter.Prelude.Tests.{Bool-cases}
use seter.Prelude.Eq.{◌==◌, ==_refl, nat_eq, list_eq, list_beq_iff}
use seter.Prelude.Text.{Text}
use seter.Prelude.Map.{Map, text_cmp, get, insert}
use seter.Prelude.Order.Sorting.{Ordering-cases}

text_cmp_self : (s : Text) → text_cmp s s ≡ Ordering.eq
text_cmp_self [] = refl
text_cmp_self (c ∷ s) = ground (arith, text_cmp_self s)

-- What was inserted under a key is found there.
pub get-insert : {V : Type 0} (k : Text) (v : V) (m : Map V) → get k (insert k v m) ≡ some v
unfolding get insert
get-insert k v [] = rw (==_refl k) refl
get-insert k v ((j, w) ∷ m) = elim (Ordering-cases (text_cmp k j)) [
  | inl lt ↦ rw (lt, insert, ==_refl k) refl
  | inr (inl eq) ↦ rw (eq, insert, ==_refl k) refl
  | inr (inr gt) ↦ elim (Bool-cases (j == k)) [
    | inl same ↦
        let e : j ≡ k = (list_beq_iff j k).0 same in
        let clash : Ordering.gt ≡ Ordering.eq =
          sym gt ∙ (ap (λ t. text_cmp k t) e ∙ text_cmp_self k) in
        cc
    | inr other ↦ rw (gt, insert, other, get) (get-insert k v m)
  ]
]
