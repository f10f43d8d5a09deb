-- ===== src/Prelude/Order.antt =====
-- `sort()` on a vector and `BTreeSet<String>`, by the order of the items.
pub mod Sorting
use Prim.Native.Nat.{ℕ, compare, Ordering}
use mathlib.Core.Bool.{Bool, true, false, not}
use mathlib.Core.List.{List, [], ◌∷◌, foldl}
use seter.Prelude.Tests.{if◌then◌else◌}
use seter.Prelude.Eq.{◌==◌, nat_eq, list_eq}
use seter.Prelude.Lists.{contains, retain}
use seter.Prelude.Text.{Text}
use seter.Prelude.Map.{text_cmp}

-- `a.cmp(b).then_with(…)`
abbrev pub then_with : Ordering → Ordering → Ordering
then_with Ordering.lt o = Ordering.lt
then_with Ordering.eq o = o
then_with Ordering.gt o = Ordering.gt

abbrev pub is_gt : Ordering → Bool
is_gt Ordering.lt = false
is_gt Ordering.eq = false
is_gt Ordering.gt = true

module _ {ℓ} {A : Type ℓ} (cmp : A → A → Ordering) where
  abbrev pub insert_sorted : A → List A → List A
  insert_sorted x [] = x ∷ []
  insert_sorted x (y ∷ ys) =
      let later = y ∷ insert_sorted x ys in if is_gt (cmp x y) then later else x ∷ y ∷ ys

  -- The one stable order of the items.
  abbrev pub sort : List A → List A
  sort [] = []
  sort (x ∷ xs) = insert_sorted x (sort xs)

-- Sets of texts: `insert`, `collect()` and `difference`.
abbrev pub set_insert : Text → List Text → List Text
set_insert x [] = x ∷ []
set_insert x (y ∷ ys) = elim (text_cmp x y) [
  | Ordering.lt ↦ x ∷ y ∷ ys
  | Ordering.eq ↦ y ∷ ys
  | Ordering.gt ↦ y ∷ set_insert x ys
]

abbrev pub collect : List Text → List Text
collect [] = []
collect (x ∷ xs) = set_insert x (collect xs)

abbrev pub difference : List Text → List Text → List Text
difference xs ys = retain (λ x. not (contains ys x)) xs
