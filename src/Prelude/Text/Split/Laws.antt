-- ===== src/Prelude/Text/Split/Laws.antt =====
-- What splitting and stripping a text say about it.
use Prim.Native.Nat.{ℕ}
use mathlib.Core.Path.{◌≡◌, ap, sym, ◌∙◌}
use mathlib.Core.Logic.{inl, inr}
use mathlib.Core.List.{[], ◌∷◌, ◌++◌}
use mathlib.Core.Option
use mathlib.Core.Option.{Option, none, some}
use native.Mathlib.Omega.{arith}
use seter.Prelude.Tests.{eqb, eqb_iff, Bool-cases, Option-cases}
use seter.Prelude.Text.{Text, strip_prefix}
use seter.Prelude.Text.Split.{split, split_once, rsplit_once, or_here}

pub strip_prefix-append : (p s r : Text) → strip_prefix p s ≡ some r → s ≡ p ++ r
strip_prefix-append [] s r h = cc
strip_prefix-append (a ∷ p) [] r h = cc
strip_prefix-append (a ∷ p) (c ∷ s) r h = ground (arith, strip_prefix-append p s r)

pub split_once-append : (sep : ℕ) (s a b : Text) → split_once sep s ≡ some (a, b) → s ≡ a ++ sep ∷ b
split_once-append sep [] a b h = cc
split_once-append sep (c ∷ s) a b h = elim (Bool-cases (eqb c sep)) [
  | inl here ↦
      let at_once : ◌≡◌ {A = Option (Text × Text)} (some ([], s)) (some (a, b)) = rw here at h in
      let c_sep : c ≡ sep = (eqb_iff c sep).0 here in cc
  | inr later ↦
      let ((a', b'), found, same) = (Option.map-eq-some_iff _ _).0 (rw later at h) in
      let left : c ∷ a' ≡ a = ap (λ t. t.0) same in
      let right : b' ≡ b = ap (λ t. t.1) same in
      rw (← left, ← right) (ap (λ t. c ∷ t) (split_once-append sep s a' b' found))
]

-- The first part of `split` is the left of `split_once`.
pub split-split_once :
    (sep : ℕ) (s a b : Text) → split_once sep s ≡ some (a, b) → split sep s ≡ a ∷ split sep b
split-split_once sep [] a b h = cc
split-split_once sep (c ∷ s) a b h = elim (Bool-cases (eqb c sep)) [
  | inl here ↦
      let at_once : ◌≡◌ {A = Option (Text × Text)} (some ([], s)) (some (a, b)) = rw here at h in
      rw here (cc)
  | inr later ↦
      let ((a', b'), found, same) = (Option.map-eq-some_iff _ _).0 (rw later at h) in
      let left : c ∷ a' ≡ a = ap (λ t. t.0) same in
      let right : b' ≡ b = ap (λ t. t.1) same in
      rw (later, split-split_once sep s a' b' found, left, right)
]

pub rsplit_once-append :
    (sep : ℕ) (s a b : Text) → rsplit_once sep s ≡ some (a, b) → s ≡ a ++ sep ∷ b
rsplit_once-append sep [] a b h = cc
rsplit_once-append sep (c ∷ s) a b h = elim (Option-cases (rsplit_once sep s)) [
  | inr ((a', b'), found) ↦
      let h' : ◌≡◌ {A = Option (Text × Text)} (some (c ∷ a', b')) (some (a, b)) =
        ap (or_here (eqb c sep) s c) (sym found) ∙ h in
      let e : ◌≡◌ {A = Text × Text} (c ∷ a', b') (a, b) = cc in
      let left : c ∷ a' ≡ a = ap (λ t. t.0) e in
      let right : b' ≡ b = ap (λ t. t.1) e in
      rw (← left, ← right) (ap (λ t. c ∷ t) (rsplit_once-append sep s a' b' found))
  | inl nowhere ↦
      let h' = ap (or_here (eqb c sep) s c) (sym nowhere) ∙ h in
      elim (Bool-cases (eqb c sep)) [
        | inl here ↦
            let h'' : ◌≡◌ {A = Option (Text × Text)} (some ([], s)) (some (a, b)) =
              ap (λ x. or_here x s c none) (sym here) ∙ h' in
            let c_sep : c ≡ sep = (eqb_iff c sep).0 here in cc
        | inr other ↦
            let h'' : ◌≡◌ {A = Option (Text × Text)} none (some (a, b)) =
              ap (λ x. or_here x s c none) (sym other) ∙ h' in
            cc
      ]
]
