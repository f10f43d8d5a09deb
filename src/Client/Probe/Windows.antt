-- ===== src/Client/Probe/Windows.antt =====
-- Where a window stands in a text and in a longer one.
use seter.Prelude.{
  ◌≤◌, ◌≡◌, refl, sym, ap, ◌∙◌, inl, inr, Option, none, some, [], ◌∷◌, ◌++◌, length, eqb,
  Bool-cases, Option-cases, arith,
}
use seter.Prelude.Eq.{nat_eq, list_eq, option_eq}
use seter.Prelude.Text.{strip_prefix}
use seter.Client.Probe.{Bytes, find_window, here_or_later, cons_before}

strip_prefix-append :
    (p s t r : Bytes) → strip_prefix p s ≡ some r → strip_prefix p (s ++ t) ≡ some (r ++ t)
strip_prefix-append [] s t r h = let e : s ≡ r = cc in rw e refl
strip_prefix-append (c ∷ p) [] t r h = cc
strip_prefix-append (c ∷ p) (d ∷ s) t r h = elim (Bool-cases (eqb c d)) [
  | inl same ↦ let h' = rw same at h in rw same (strip_prefix-append p s t r h')
  | inr other ↦ let h' : ◌≡◌ {A = Option Bytes} none (some r) = rw other at h in cc
]

strip_prefix-length : (p s r : Bytes) → strip_prefix p s ≡ some r → length p ≤ length s
strip_prefix-length [] s r h = omega arith
strip_prefix-length (c ∷ p) [] r h = cc
strip_prefix-length (c ∷ p) (d ∷ s) r h = elim (Bool-cases (eqb c d)) [
  | inl same ↦ let h' = rw same at h in omega (arith, strip_prefix-length p s r h')
  | inr other ↦ let h' : ◌≡◌ {A = Option Bytes} none (some r) = rw other at h in cc
]

strip_prefix-none :
    (p s t : Bytes) → length p ≤ length s → strip_prefix p s ≡ none → strip_prefix p (s ++ t) ≡ none
strip_prefix-none [] s t long h = cc
strip_prefix-none (c ∷ p) [] t long h = absurd (omega arith)
strip_prefix-none (c ∷ p) (d ∷ s) t long h = elim (Bool-cases (eqb c d)) [
  | inl same ↦ let h' = rw same at h in rw same (strip_prefix-none p s t (omega arith) h')
  | inr other ↦ rw other refl
]

pub window_parts :
    {a b c d : Bytes}
    → ◌≡◌ {A = Option (Bytes × Bytes)} (some (a, b)) (some (c, d))
    → (a ≡ c) × (b ≡ d)
window_parts {a = a} {b = b} {c = c} {d = d} h =
    let e : ◌≡◌ {A = Bytes × Bytes} (a, b) (c, d) = cc in (ap (λ p. p.0) e, ap (λ p. p.1) e)

-- A window that is found is found at the same place in a longer text.
pub find_window-append :
    (p s t a b : Bytes)
    → find_window p s ≡ some (a, b)
    → (find_window p (s ++ t) ≡ some (a, b ++ t)) × (length p ≤ length s)
unfolding find_window
find_window-append p [] t a b h = cc
find_window-append p (c ∷ s) t a b h = elim (Option-cases (strip_prefix p (c ∷ s))) [
  | inr (rest, found) ↦
      let (e₁, e₂) =
        window_parts
          (ap (λ o. here_or_later o (cons_before c (find_window p s))) (sym found) ∙ h) in
      (
        rw (strip_prefix-append p (c ∷ s) t rest found)
            (ap (λ x. some ([], x ++ t)) e₂ ∙ ap (λ x. some (x, b ++ t)) e₁),
        strip_prefix-length p (c ∷ s) rest found,
      )
  | inl missing ↦
      let h' = ap (λ o. here_or_later o (cons_before c (find_window p s))) (sym missing) ∙ h in
      elim (Option-cases (find_window p s)) [
        | inl nowhere ↦
            let h'' : ◌≡◌ {A = Option (Bytes × Bytes)} none (some (a, b)) =
              ap (λ o. cons_before c o) (sym nowhere) ∙ h' in
            cc
        | inr ((a', b'), later) ↦
            let (e₁, e₂) = window_parts (ap (λ o. cons_before c o) (sym later) ∙ h') in
            let (longer, long) = find_window-append p s t a' b' later in
            let grown : length p ≤ length (c ∷ s) = omega (arith, long) in
            (
              rw (strip_prefix-none p (c ∷ s) t grown missing, longer)
                  (ap (λ x. some (c ∷ a', x ++ t)) e₂ ∙ ap (λ x. some (x, b ++ t)) e₁),
              grown,
            )
      ]
]
