-- ===== src/Policy/Grants/Status.antt =====
-- What the comparison of a desired and an active policy reports.
use mathlib.Core.Bool.{false≢true}
use seter.Prelude.{
  ℕ, ◌≡◌, refl, sym, ◌∙◌, ◌↔◌, Bool, true, ◌&&◌, List, [], ◌∷◌, In, contains, contains_iff,
  is_empty, if◌then◌else◌, arith, inl, inr, Bool-cases,
}
use seter.Prelude.Eq.{nat_eq, list_eq}
use seter.Prelude.Text.{Text}
use seter.Prelude.Order.{difference}
use seter.Policy.{EgressPolicy}
use seter.Policy.Grants.{grants, compare_egress}

-- A difference holds the items of the one set that are not in the other.
difference-In : (xs ys : List Text) (a : Text) → In a (difference xs ys) ↔ (In a xs × (¬ In a ys))
difference-In [] ys a = (λ m. absurd m, λ (m, ne). m)
difference-In (x ∷ xs) ys a =
    let (to, from) = difference-In xs ys a in
    elim (Bool-cases (contains ys x)) [
      | inl held ↦ rw held (
        λ m. (inr (to m).0, (to m).1),
        λ (m, ne). elim m [
          | inl e ↦ absurd (ne (rw e ((contains_iff ys x).0 held)))
          | inr later ↦ from (later, ne)
        ],
      )
      | inr missing ↦ rw missing (
        elim [
          | inl e ↦ (inl e, λ m. false≢true (sym missing ∙ (contains_iff ys x).1 (rw (← e) m)))
          | inr later ↦ (inr (to later).0, (to later).1)
        ],
        λ (m, ne). elim m [ inl e ↦ inl e | inr later ↦ inr (from (later, ne)) ],
      )
    ]

empty_of_no_items : (xs : List Text) → ((a : Text) → ¬ In a xs) → is_empty xs ≡ true
empty_of_no_items [] h = refl
empty_of_no_items (x ∷ xs) h = absurd (h x (inl refl))

no_items_of_empty : (xs : List Text) → is_empty xs ≡ true → (a : Text) → ¬ In a xs
no_items_of_empty [] h a m = m
no_items_of_empty (x ∷ xs) h a m = absurd (false≢true h)

both_iff : (a b : Bool) → (◌≡◌ {A = ℕ} (if a && b then 0 else 2) 0) ↔ ((a ≡ true) × (b ≡ true))
both_iff a b = ground arith

In-or-not : (a : Text) (xs : List Text) → ¬ (¬ In a xs) → In a xs
In-or-not a xs h = elim (Bool-cases (contains xs a)) [
  | inl held ↦ (contains_iff xs a).0 held
  | inr missing ↦ absurd (h (λ m. false≢true (sym missing ∙ (contains_iff xs a).1 m)))
]

-- The comparison lists as additions the grants of the desired policy that the active one lacks and
-- as revocations those of the active policy that the desired one lacks, and its exit code is 0
-- exactly when the two policies have the same set of grants.
pub compare_egress_lem :
    (desired active : EgressPolicy)
    → ((a : Text)
        → In a (compare_egress desired active).additions
          ↔ (In a (grants desired) × (¬ In a (grants active))))
      × ((a : Text)
          → In a (compare_egress desired active).revocations
            ↔ (In a (grants active) × (¬ In a (grants desired))))
      × (((compare_egress desired active).code ≡ 0)
          ↔ ((a : Text) → In a (grants desired) ↔ In a (grants active)))
unfolding compare_egress
compare_egress_lem desired active = (
  difference-In (grants desired) (grants active),
  difference-In (grants active) (grants desired),
  (
    λ zero_code a.
        let (no_additions, no_revocations) = (both_iff _ _).0 zero_code in
        (
          λ m.
              In-or-not a (grants active)
                (λ ne. no_items_of_empty _ no_additions a ((difference-In _ _ a).1 (m, ne))),
          λ m.
              In-or-not a (grants desired)
                (λ ne. no_items_of_empty _ no_revocations a ((difference-In _ _ a).1 (m, ne))),
        ),
    λ same. (both_iff _ _).1 (
      empty_of_no_items _ (λ a m. let (d, ne) = (difference-In _ _ a).0 m in ne ((same a).0 d)),
      empty_of_no_items _ (λ a m. let (d, ne) = (difference-In _ _ a).0 m in ne ((same a).1 d)),
    ),
  ),
)
