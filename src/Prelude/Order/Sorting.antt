-- ===== src/Prelude/Order/Sorting.antt =====
-- Sorting gives a sorted list, leaves a sorted list alone and keeps what holds of every item.
use Prim.Native.Nat.{Ordering}
use mathlib.Core.Path.{◌≡◌, refl, ap, ◌∙◌}
use mathlib.Core.Logic.{◌⊎◌, inl, inr, ◌↔◌}
use mathlib.Core.Bool.{true, false}
use mathlib.Core.List.{List, [], ◌∷◌}
use native.Mathlib.Omega.{arith}
use seter.Prelude.Tests.{Bool-cases}
use seter.Prelude.Lists.{All, In}
use seter.Prelude.Text.{Text}
use seter.Prelude.Map.{text_cmp}
use seter.Prelude.Order.{is_gt, insert_sorted, sort, set_insert, collect}

-- The items that `cmp` puts behind one another are put before when swapped.
abbrev pub IsAsymmetric : {A : Type 0} → (A → A → Ordering) → Type 0
IsAsymmetric {A} cmp = (x y : A) → is_gt (cmp x y) ≡ true → is_gt (cmp y x) ≡ false

pub text_cmp-swap : (s t : Text) → text_cmp s t ≡ Ordering.gt → text_cmp t s ≡ Ordering.lt
text_cmp-swap [] [] h = cc
text_cmp-swap [] (d ∷ t) h = cc
text_cmp-swap (c ∷ s) [] h = refl
text_cmp-swap (c ∷ s) (d ∷ t) h = ground (arith, text_cmp-swap s t)

pub text_cmp-eq : (s t : Text) → text_cmp s t ≡ Ordering.eq → s ≡ t
text_cmp-eq [] [] h = refl
text_cmp-eq [] (d ∷ t) h = cc
text_cmp-eq (c ∷ s) [] h = cc
text_cmp-eq (c ∷ s) (d ∷ t) h = ground (arith, text_cmp-eq s t)

pub text_cmp-asym : IsAsymmetric text_cmp
text_cmp-asym s t h = ground (arith, text_cmp-swap s t)

module _ {A : Type 0} (cmp : A → A → Ordering) where
  abbrev pub IsSorted : List A → Type 0
  IsSorted [] = Unit
  IsSorted (x ∷ []) = Unit
  IsSorted (x ∷ y ∷ ys) = (is_gt (cmp x y) ≡ false) × IsSorted (y ∷ ys)

  pub sort_of_IsSorted : (xs : List A) → IsSorted xs → sort cmp xs ≡ xs
  sort_of_IsSorted [] h = refl
  sort_of_IsSorted (x ∷ []) h = refl
  sort_of_IsSorted (x ∷ y ∷ ys) h =
      ap (insert_sorted cmp x) (sort_of_IsSorted (y ∷ ys) h.1) ∙ rw h.0

  insert_sorted-IsSorted :
      IsAsymmetric cmp → (x : A) (ys : List A) → IsSorted ys → IsSorted (insert_sorted cmp x ys)
  insert_sorted-IsSorted asym x [] h = tt
  insert_sorted-IsSorted asym x (y ∷ []) h = elim (Bool-cases (is_gt (cmp x y))) [
    | inl gt ↦ rw gt (asym x y gt, tt)
    | inr le ↦ rw le (le, tt)
  ]
  insert_sorted-IsSorted asym x (y ∷ z ∷ ys) h = elim (Bool-cases (is_gt (cmp x y))) [
    | inl gt ↦
        let later = insert_sorted-IsSorted asym x (z ∷ ys) h.1 in
        elim (Bool-cases (is_gt (cmp x z))) [
          | inl gt' ↦ rw (gt, gt') (h.0, rw gt' at later)
          | inr le' ↦ rw (gt, le') (asym x y gt, rw le' at later)
        ]
    | inr le ↦ rw le (le, h)
  ]

  pub sort-IsSorted : IsAsymmetric cmp → (xs : List A) → IsSorted (sort cmp xs)
  sort-IsSorted asym [] = tt
  sort-IsSorted asym (x ∷ xs) = insert_sorted-IsSorted asym x (sort cmp xs) (sort-IsSorted asym xs)

  pub sort_idem : IsAsymmetric cmp → (xs : List A) → sort cmp (sort cmp xs) ≡ sort cmp xs
  sort_idem asym xs = sort_of_IsSorted (sort cmp xs) (sort-IsSorted asym xs)

  pub insert_sorted-In :
      (x : A) (ys : List A) (a : A) → In a (insert_sorted cmp x ys) ↔ ((a ≡ x) ⊎ In a ys)
  insert_sorted-In x [] a = (λ m. m, λ m. m)
  insert_sorted-In x (y ∷ ys) a = elim (Bool-cases (is_gt (cmp x y))) [
    | inl gt ↦ rw gt (
      elim [
        | inl e ↦ inr (inl e)
        | inr m ↦ elim ((insert_sorted-In x ys a).0 m) [ inl e ↦ inl e | inr m' ↦ inr (inr m') ]
      ],
      elim [
        | inl e ↦ inr ((insert_sorted-In x ys a).1 (inl e))
        | inr m ↦ elim m [ inl e ↦ inl e | inr m' ↦ inr ((insert_sorted-In x ys a).1 (inr m')) ]
      ],
    )
    | inr le ↦ rw le (λ m. m, λ m. m)
  ]

  -- Sorting keeps the items.
  pub sort-In : (xs : List A) (a : A) → In a (sort cmp xs) ↔ In a xs
  sort-In [] a = (λ m. m, λ m. m)
  sort-In (x ∷ xs) a =
      let (to, from) = insert_sorted-In x (sort cmp xs) a in
      (
        λ m. elim (to m) [ inl e ↦ inl e | inr m' ↦ inr ((sort-In xs a).0 m') ],
        elim [ inl e ↦ from (inl e) | inr m ↦ from (inr ((sort-In xs a).1 m)) ],
      )

  module _ (P : A → Type 0) where
    insert_sorted-All : (x : A) (ys : List A) → P x → All P ys → All P (insert_sorted cmp x ys)
    insert_sorted-All x [] p h = (p, tt)
    insert_sorted-All x (y ∷ ys) p h = elim (Bool-cases (is_gt (cmp x y))) [
      | inl gt ↦ rw gt (h.0, insert_sorted-All x ys p h.1)
      | inr le ↦ rw le (p, h)
    ]

    pub sort-All : (xs : List A) → All P xs → All P (sort cmp xs)
    sort-All [] h = tt
    sort-All (x ∷ xs) h = insert_sorted-All x (sort cmp xs) h.0 (sort-All xs h.1)

pub Ordering-cases : (o : Ordering) → (o ≡ Ordering.lt) ⊎ ((o ≡ Ordering.eq) ⊎ (o ≡ Ordering.gt))
Ordering-cases Ordering.lt = inl refl
Ordering-cases Ordering.eq = inr (inl refl)
Ordering-cases Ordering.gt = inr (inr refl)

-- A set holds the texts that were collected.
set_insert-In :
    (x : Text) (ys : List Text) (a : Text) → In a (set_insert x ys) ↔ ((a ≡ x) ⊎ In a ys)
set_insert-In x [] a = (λ m. m, λ m. m)
set_insert-In x (y ∷ ys) a = elim (Ordering-cases (text_cmp x y)) [
  | inl lt ↦ rw (lt, set_insert) (λ m. m, λ m. m)
  | inr (inl eq) ↦
      rw (eq, set_insert) (λ m. inr m, elim [ inl e ↦ inl (e ∙ text_cmp-eq x y eq) | inr m ↦ m ])
  | inr (inr gt) ↦
      rw (gt, set_insert)
        (
          elim [
            | inl e ↦ inr (inl e)
            | inr m ↦ elim ((set_insert-In x ys a).0 m) [ inl e ↦ inl e | inr m' ↦ inr (inr m') ]
          ],
          elim [
            | inl e ↦ inr ((set_insert-In x ys a).1 (inl e))
            | inr m ↦ elim m [ inl e ↦ inl e | inr m' ↦ inr ((set_insert-In x ys a).1 (inr m')) ]
          ],
        )
]

pub collect-In : (xs : List Text) (a : Text) → In a (collect xs) ↔ In a xs
collect-In [] a = (λ m. m, λ m. m)
collect-In (x ∷ xs) a =
    let (to, from) = set_insert-In x (collect xs) a in
    (
      λ m. elim (to m) [ inl e ↦ inl e | inr m' ↦ inr ((collect-In xs a).0 m') ],
      elim [ inl e ↦ from (inl e) | inr m ↦ from (inr ((collect-In xs a).1 m)) ],
    )
