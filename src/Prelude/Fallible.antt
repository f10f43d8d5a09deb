-- ===== src/Prelude/Fallible.antt =====
-- Rust's `Result`, with `?` as bind and anyhow's `ensure!` and `with_context`.
use mathlib.Core.Path.{◌≡◌, refl, ap}
use mathlib.Core.Logic.{◌⊎◌, inl, inr}
use mathlib.Core.Bool.{Bool, true, false}
use mathlib.Core.Option.{Option, none, some}
use mathlib.Core.List.{List, [], ◌∷◌}

pub data Result {ℓ κ} (E : Type ℓ) (A : Type κ) : Type (ℓ ⊔ κ) where
  ok : A → Result E A
  err : E → Result E A

-- `Ok(())`
abbrev pub done {ℓ} : {E : Type ℓ} → Result E (Unit {0})
done = ok tt

infixl 5 ◌>>=◌ ◌>>◌
unfoldable pub ◌>>=◌ {ℓ κ μ} :
    {E : Type ℓ} {A : Type κ} {B : Type μ} → Result E A → (A → Result E B) → Result E B
ok a >>= f = f a
err e >>= f = err e

abbrev pub ◌>>◌ {ℓ κ} : {E : Type ℓ} {B : Type κ} → Result E (Unit {0}) → Result E B → Result E B
m >> k = m >>= λ _. k

-- `ensure!(b, e)`
unfoldable pub ensure {ℓ} : {E : Type ℓ} → Bool → E → Result E (Unit {0})
ensure true e = ok tt
ensure false e = err e

-- `result.with_context(…)`
unfoldable pub with_context {ℓ κ μ} :
    {E : Type ℓ} {F : Type κ} {A : Type μ} → (E → F) → Result E A → Result F A
with_context f (ok a) = ok a
with_context f (err e) = err (f e)

-- `option.context(…)`
unfoldable pub context {ℓ κ} : {E : Type ℓ} {A : Type κ} → E → Option A → Result E A
context e none = err e
context e (some a) = ok a

-- `result.is_ok()`
abbrev pub is_ok {ℓ κ} : {E : Type ℓ} {A : Type κ} → Result E A → Bool
is_ok (ok a) = true
is_ok (err e) = false

-- A `for` loop whose body may return early with an error.
unfoldable pub for_each {ℓ κ} :
    {E : Type ℓ} {A : Type κ} → List A → (A → Result E (Unit {0})) → Result E (Unit {0})
for_each [] body = ok tt
for_each (x ∷ xs) body = body x >> for_each xs body

module _ {ℓ κ} {E : Type ℓ} {A : Type κ} where
  pub bind-eq-ok {μ} :
      {B : Type μ} (m : Result E A) (f : A → Result E B) {b : B}
      → (m >>= f) ≡ ok b
      → (a : A) × (m ≡ ok a) × (f a ≡ ok b)
  unfolding ◌>>=◌
  bind-eq-ok (ok a) f h = (a, refl, h)
  bind-eq-ok (err e) f h = cc

  pub with_context-eq-ok {μ} :
      {F : Type μ} (f : E → F) (m : Result E A) {a : A} → with_context f m ≡ ok a → m ≡ ok a
  unfolding with_context
  with_context-eq-ok f (ok a) h = cc
  with_context-eq-ok f (err e) h = cc

  pub is_ok-of : (m : Result E A) {a : A} → m ≡ ok a → is_ok m ≡ true
  is_ok-of (ok a) h = refl
  is_ok-of (err e) h = cc

  pub context-eq-ok : (e : E) (o : Option A) {a : A} → context e o ≡ ok a → o ≡ some a
  unfolding context
  context-eq-ok e none h = cc
  context-eq-ok e (some a) h = cc

module _ {ℓ} {E : Type ℓ} where
  pub seq-eq-ok {κ} :
      {B : Type κ} (m : Result E (Unit {0})) (k : Result E B) {b : B}
      → (m >> k) ≡ ok b
      → (m ≡ ok tt) × (k ≡ ok b)
  unfolding ◌>>=◌
  seq-eq-ok (ok tt) k h = (refl, h)
  seq-eq-ok (err e) k h = cc

  pub ensure-eq-ok : (b : Bool) (e : E) → ensure b e ≡ ok tt → b ≡ true
  unfolding ensure
  ensure-eq-ok true e h = refl
  ensure-eq-ok false e h = cc

  pub is_ok_iff : (m : Result E (Unit {0})) → is_ok m ≡ true → m ≡ ok tt
  is_ok_iff (ok tt) h = refl
  is_ok_iff (err e) h = cc

-- A loop that carries state and may fail.
unfoldable pub try_fold {ℓ κ μ} :
    {E : Type ℓ} {S : Type κ} {A : Type μ} → (S → A → Result E S) → S → List A → Result E S
try_fold body s [] = ok s
try_fold body s (x ∷ xs) = body s x >>= λ s'. try_fold body s' xs

-- A step that may fail and that changes a state either way, and what follows it with `?`.
unfoldable pub and_then {ℓ κ μ} :
    {E : Type ℓ} {A : Type κ} {B : Type κ} {S : Type μ}
    → Result E A × S
    → (A → S → Result E B × S)
    → Result E B × S
and_then (ok a, s) next = next a s
and_then (err e, s) next = (err e, s)

pub Result-cases {ℓ κ} :
    {E : Type ℓ} {A : Type κ} (m : Result E A) → ((a : A) × (m ≡ ok a)) ⊎ ((e : E) × (m ≡ err e))
Result-cases (ok a) = inl (a, refl)
Result-cases (err e) = inr (e, refl)

pub ok_inj {ℓ κ} : {E : Type ℓ} {A : Type κ} {a b : A} → ◌≡◌ {A = Result E A} (ok a) (ok b) → a ≡ b
ok_inj h = cc

pub and_then-eq-ok {ℓ κ μ} :
    {E : Type ℓ} {A : Type κ} {B : Type κ} {S : Type μ} (first : Result E A × S)
    (next : A → S → Result E B × S) {b : B} {s : S}
    → and_then first next ≡ (ok b, s)
    → (a : A) × (first.0 ≡ ok a) × (next a first.1 ≡ (ok b, s))
unfolding and_then
and_then-eq-ok (ok a, s) next h = (a, refl, h)
and_then-eq-ok {E = E} {B = B} (err e, s) next {b = b} h =
    let clash : ◌≡◌ {A = Result E B} (err e) (ok b) = ap (λ o. o.0) h in cc

-- The first step, with the state that it leaves.
pub and_then-steps {ℓ κ μ} :
    {E : Type ℓ} {A : Type κ} {B : Type κ} {S : Type μ} (first : Result E A × S)
    (next : A → S → Result E B × S) {b : B} {s : S}
    → and_then first next ≡ (ok b, s)
    → (a : A) × (t : S) × (first ≡ (ok a, t)) × (next a t ≡ (ok b, s))
and_then-steps (r, t) next h =
    let (a, e, h') = and_then-eq-ok (r, t) next h in (a, t, ap (λ x. (x, t)) e, h')

-- What a step ends with, and in which state.
pub pair-eq {ℓ κ} :
    {A : Type ℓ} {S : Type κ} {a b : A} {s t : S}
    → ◌≡◌ {A = A × S} (a, s) (b, t)
    → (a ≡ b) × (s ≡ t)
pair-eq h = (ap (λ o. o.0) h, ap (λ o. o.1) h)

pub err-not-ok {ℓ κ} :
    {E : Type ℓ} {A : Type κ} {e : E} {a : A} → ◌≡◌ {A = Result E A} (err e) (ok a) → ⊥
err-not-ok h = cc
