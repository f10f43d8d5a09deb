-- ===== src/Prelude/Lists.antt =====
-- Lists over native numbers, and predicates on all or some of the items.
use Prim.Native.Nat.{ℕ, zero, suc, ◌+◌, ◌-◌, ◌≤◌}
use mathlib.Core.Path.{◌≡◌, refl, sym, ap}
use mathlib.Core.Logic.{◌⊎◌, inl, inr, ◌↔◌}
use mathlib.Core.Bool.{Bool, true, false, not, ◌&&◌, ◌||◌, false≢true}
use mathlib.Core.List.{List, [], ◌∷◌, ◌++◌}
use native.Mathlib.Omega.{arith}
use seter.Prelude.Tests.{if◌then◌else◌, or_cases, or_left, or_right, Bool-cases}
use seter.Prelude.Eq.{Eq, ◌==◌}

module _ {ℓ} {A : Type ℓ} where
  abbrev pub length : List A → ℕ
  length [] = 0
  length (x ∷ xs) = suc (length xs)

  abbrev pub is_empty : List A → Bool
  is_empty [] = true
  is_empty (x ∷ xs) = false

  -- `iter().all(p)` and `iter().any(p)`
  abbrev pub all : (A → Bool) → List A → Bool
  all p [] = true
  all p (x ∷ xs) = p x && all p xs

  abbrev pub any : (A → Bool) → List A → Bool
  any p [] = false
  any p (x ∷ xs) = p x || any p xs

  -- `retain(p)`
  abbrev pub retain : (A → Bool) → List A → List A
  retain p [] = []
  retain p (x ∷ xs) = let rest = retain p xs in if p x then x ∷ rest else rest

  -- `&list[..n]` and `&list[n..]`, for an `n` within bounds.
  abbrev pub take : ℕ → List A → List A
  take n [] = []
  take zero (x ∷ xs) = []
  take (suc n) (x ∷ xs) = x ∷ take n xs

  abbrev pub drop : ℕ → List A → List A
  drop n [] = []
  drop zero (x ∷ xs) = x ∷ xs
  drop (suc n) (x ∷ xs) = drop n xs

  pub take-append : (xs ys : List A) → take (length xs) (xs ++ ys) ≡ xs
  take-append [] [] = refl
  take-append [] (y ∷ ys) = refl
  take-append (x ∷ xs) ys = ap (λ zs. x ∷ zs) (take-append xs ys)

  pub drop-append : (xs ys : List A) → drop (length xs) (xs ++ ys) ≡ ys
  drop-append [] [] = refl
  drop-append [] (y ∷ ys) = refl
  drop-append (x ∷ xs) ys = drop-append xs ys

  pub length-take : (n : ℕ) (xs : List A) → length (take n xs) ≤ n
  length-take n [] = omega arith
  length-take zero (x ∷ xs) = omega arith
  length-take (suc n) (x ∷ xs) = omega (arith, length-take n xs)

  pub length-drop : (n : ℕ) (xs : List A) → length (drop n xs) ≤ length xs - n
  length-drop n [] = omega arith
  length-drop zero (x ∷ xs) = omega arith
  length-drop (suc n) (x ∷ xs) = omega (arith, length-drop n xs)

  pub length-append : (xs ys : List A) → length (xs ++ ys) ≡ length xs + length ys
  length-append [] ys = omega arith
  length-append (x ∷ xs) ys = omega (arith, length-append xs ys)

module _ {A : Type 0} where
  -- Membership by recursion, which the tactics read.
  abbrev pub In : A → List A → Type 0
  In a [] = ⊥
  In a (x ∷ xs) = (a ≡ x) ⊎ In a xs

  pub all-In : (p : A → Bool) (xs : List A) (a : A) → all p xs ≡ true → In a xs → p a ≡ true
  all-In p [] a h m = absurd m
  all-In p (x ∷ xs) a h (inl e) = rw e (ground arith)
  all-In p (x ∷ xs) a h (inr m) = all-In p xs a (ground arith) m

  pub any-In : (p : A → Bool) (xs : List A) (a : A) → In a xs → p a ≡ true → any p xs ≡ true
  any-In p [] a m h = absurd m
  any-In p (x ∷ xs) a (inl e) h = or_left (p x) (any p xs) (rw (← e) h)
  any-In p (x ∷ xs) a (inr m) h = ground (arith, any-In p xs a m h)

module _ {ℓ} {A : Type 0} (P : A → Type ℓ) where
  abbrev pub All : List A → Type ℓ
  All [] = Unit
  All (x ∷ xs) = P x × All xs

  pub All-In : (xs : List A) (a : A) → All xs → In a xs → P a
  All-In [] a h m = absurd m
  All-In (x ∷ xs) a (p, h) (inl e) = rw e p
  All-In (x ∷ xs) a (p, h) (inr m) = All-In xs a h m

  pub All-append : (xs ys : List A) → All xs → All ys → All (xs ++ ys)
  All-append [] ys f h = h
  All-append (x ∷ xs) ys (p, f) h = (p, All-append xs ys f h)

  pub All-of : (xs : List A) → ((a : A) → In a xs → P a) → All xs
  All-of [] f = tt
  All-of (x ∷ xs) f = (f x (inl refl), All-of xs (λ a m. f a (inr m)))

  pub All-retain : (keep : A → Bool) (xs : List A) → All xs → All (retain keep xs)
  All-retain keep [] h = tt
  All-retain keep (x ∷ xs) (p, h) = elim (Bool-cases (keep x)) [
    | inl kept ↦ rw kept (p, All-retain keep xs h)
    | inr gone ↦ rw gone (All-retain keep xs h)
  ]

module _ {A : Type 0} ⦃e : Eq A⦄ where
  -- `contains(&a)`
  abbrev pub contains : List A → A → Bool
  contains [] a = false
  contains (x ∷ xs) a = (x == a) || contains xs a

  pub contains_iff : (xs : List A) (a : A) → (contains xs a ≡ true) ↔ In a xs
  contains_iff [] a = (λ h. absurd (false≢true h), λ m. absurd m)
  contains_iff (x ∷ xs) a = (
    λ h. elim (or_cases (x == a) (contains xs a) h) [
      | inl p ↦ inl (sym ((e.beq_iff x a).0 p))
      | inr p ↦ inr ((contains_iff xs a).0 p)
    ],
    elim [
      | inl p ↦ or_left (x == a) (contains xs a) ((e.beq_iff x a).1 (sym p))
      | inr m ↦ or_right (x == a) (contains xs a) ((contains_iff xs a).1 m)
    ],
  )

  -- The test of a loop that inserts each item into a set and fails on one that is there already.
  abbrev pub no_repeats : List A → List A → Bool
  no_repeats seen [] = true
  no_repeats seen (x ∷ xs) = not (contains seen x) && no_repeats (x ∷ seen) xs
