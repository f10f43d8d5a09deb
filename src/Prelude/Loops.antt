-- ===== src/Prelude/Loops.antt =====
-- What a loop that may fail has established when it ends without an error.
use mathlib.Core.Path.{◌≡◌, refl, sym, ap, ◌∙◌}
use mathlib.Core.Logic.{◌≢◌, inl, inr}
use mathlib.Core.List.{List, [], ◌∷◌, ◌++◌, append_assoc}
use seter.Prelude.Lists.{In, All}
use seter.Prelude.Fallible.{Result, ok, ◌>>=◌, bind-eq-ok, try_fold, for_each, seq-eq-ok, ok_inj}

-- No two items agree under `f`.
abbrev pub Distinct : {A B : Type 0} → (A → B) → List A → Type 0
Distinct f [] = Unit
Distinct f (x ∷ xs) = All (λ y. f x ≢ f y) xs × Distinct f xs

module _ {E S A : Type 0} (body : S → A → Result E S) where
  -- Each round has shown a fact about its item.
  pub try_fold-All :
      (P : A → Type 0) (step : (s : S) (x : A) (s' : S) → body s x ≡ ok s' → P x) (s : S)
      (xs : List A) {s' : S}
      → try_fold body s xs ≡ ok s'
      → All P xs
  unfolding try_fold
  try_fold-All P step s [] h = tt
  try_fold-All P step s (x ∷ xs) h =
      let (s₁, first, later) = bind-eq-ok _ _ h in
      (step s x s₁ first, try_fold-All P step s₁ xs later)

  -- What each round keeps, with what is known of its item, holds at the end.
  pub try_fold-kept :
      (Holds : S → Type 0) (P : A → Type 0)
      (step : (s : S) (x : A) (s' : S) → P x → Holds s → body s x ≡ ok s' → Holds s') (s : S)
      (xs : List A) {s' : S}
      → All P xs
      → Holds s
      → try_fold body s xs ≡ ok s'
      → Holds s'
  unfolding try_fold
  try_fold-kept Holds P step s [] known now h = rw (← ok_inj h) now
  try_fold-kept Holds P step s (x ∷ xs) (p, known) now h =
      let (s₁, first, later) = bind-eq-ok _ _ h in
      try_fold-kept Holds P step s₁ xs known (step s x s₁ p now first) later

  try_fold-append :
      (xs ys : List A) (s s₁ : S)
      → try_fold body s xs ≡ ok s₁
      → try_fold body s (xs ++ ys) ≡ try_fold body s₁ ys
  unfolding try_fold ◌>>=◌
  try_fold-append [] ys s s₁ h = ap (λ t. try_fold body t ys) (ok_inj h)
  try_fold-append (x ∷ xs) ys s s₁ h =
      let (s₂, first, later) = bind-eq-ok (body s x) (λ t. try_fold body t xs) h in
      ap (λ (r : Result E S). r >>= λ t. try_fold body t (xs ++ ys)) first
      ∙ try_fold-append xs ys s₂ s₁ later

  try_fold-one : (x : A) (s s₁ : S) → body s x ≡ ok s₁ → try_fold body s (x ∷ []) ≡ ok s₁
  unfolding try_fold ◌>>=◌
  try_fold-one x s s₁ h = rw h refl

  -- A loop over a list comes to this state, with this item next.
  abbrev pub Reaches : S → List A → A → S → Type 0
  Reaches start xs x s =
      (before after : List A) × (xs ≡ before ++ x ∷ after) × (try_fold body start before ≡ ok s)

  module _ (start : S) (xs : List A) (Holds : S → Type 0) (P : A → Type 0)
      (step : (s : S) (x : A) (s' : S)
        → P x
        → Reaches start xs x s
        → Holds s
        → body s x ≡ ok s'
        → Holds s') where
    reached_from :
        (done todo : List A) (s : S) {s' : S}
        → xs ≡ done ++ todo
        → try_fold body start done ≡ ok s
        → All P todo
        → Holds s
        → try_fold body s todo ≡ ok s'
        → Holds s'
    unfolding try_fold
    reached_from done [] s split past known now h = rw (← ok_inj h) now
    reached_from done (x ∷ todo) s split past (p, known) now h =
        let (s₁, first, later) = bind-eq-ok _ _ h in
        reached_from (done ++ x ∷ []) todo s₁ (split ∙ sym (append_assoc done (x ∷ []) todo))
          (try_fold-append done (x ∷ []) start s past ∙ try_fold-one x s s₁ first) known
          (step s x s₁ p (done, todo, split, past) now first) later

    -- What each round keeps, with the place of the round in the loop, holds at the end.
    pub try_fold-reached :
        {s' : S} → All P xs → Holds start → try_fold body start xs ≡ ok s' → Holds s'
    unfolding try_fold
    try_fold-reached known now h = reached_from [] xs start refl refl known now h

  -- Each round puts the key of its item into a set that did not hold it.
  module _ {B : Type 0} (set : S → List B) (key : A → B) where
    abbrev pub Inserts : Type 0
    Inserts =
        (s : S) (x : A) (s' : S)
        → body s x ≡ ok s'
        → (¬ In (key x) (set s)) × (set s' ≡ key x ∷ set s)

    fresh_and_Distinct :
        Inserts
        → (s : S) (xs : List A) {s' : S} → try_fold body s xs ≡ ok s'
        → All (λ x. ¬ In (key x) (set s)) xs × Distinct key xs
    unfolding try_fold
    fresh_and_Distinct step s [] h = (tt, tt)
    fresh_and_Distinct step s (x ∷ xs) h =
        let (s₁, first, later) = bind-eq-ok _ _ h in
        let (new, grown) = step s x s₁ first in
        let (fresh, distinct) = fresh_and_Distinct step s₁ xs later in
        ((new, forget grown xs fresh), (apart grown xs fresh, distinct))
      where
        forget :
            {s₁ : S}
            → set s₁ ≡ key x ∷ set s
            → (ys : List A) → All (λ y. ¬ In (key y) (set s₁)) ys
            → All (λ y. ¬ In (key y) (set s)) ys
        forget g [] f = tt
        forget g (y ∷ ys) f = ((λ m. f.0 (rw g (inr m))), forget g ys f.1)

        apart :
            {s₁ : S}
            → set s₁ ≡ key x ∷ set s
            → (ys : List A) → All (λ y. ¬ In (key y) (set s₁)) ys
            → All (λ y. key x ≢ key y) ys
        apart g [] f = tt
        apart g (y ∷ ys) f = ((λ e. f.0 (rw g (inl (sym e)))), apart g ys f.1)

    pub try_fold-Distinct :
        Inserts → (s : S) (xs : List A) {s' : S} → try_fold body s xs ≡ ok s' → Distinct key xs
    try_fold-Distinct step s xs h = (fresh_and_Distinct step s xs h).1

-- A loop with no state.
pub for_each-All :
    {E A : Type 0} (body : A → Result E (Unit {0})) (P : A → Type 0)
    (step : (x : A) → body x ≡ ok tt → P x) (xs : List A)
    → for_each xs body ≡ ok tt
    → All P xs
unfolding for_each
for_each-All body P step [] h = tt
for_each-All body P step (x ∷ xs) h =
    let (first, later) = seq-eq-ok _ _ h in (step x first, for_each-All body P step xs later)
