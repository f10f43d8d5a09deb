-- ===== src/HostPatterns/Labels.antt =====
-- Lower case does not change whether a host is valid, and a label in front of a name keeps it valid.
use seter.Prelude.{
  ℕ, ◌≤◌, ◌≡◌, refl, sym, Bool, true, false, Option, none, some, List, [], ◌∷◌, all, is_empty, eqb,
  ok, ensure, context, for_each, ◌>>=◌, map, arith, Bool-cases, inl, inr, ◌⊎◌, le→leb, done,
  seq-eq-ok, ensure-eq-ok,
}
use mathlib.Core.Bool.{false≢true}
use seter.Prelude.Eq.{nat_eq, list_eq}
use seter.Prelude.Text.{Text, text, byte_len, ends_with, contains_char}
use seter.Prelude.Text.Ascii.{
  lower, is_ascii_alphanumeric, to_ascii_lowercase, eqb-lower_dot, eqb-lower_hyphen,
  is_ascii_digit-lower, is_ascii_alphanumeric-lower, byte_len-to_ascii_lowercase,
  all-to_ascii_lowercase, lower_of_digit,
}
use seter.Prelude.Text.Split.{split, cons_first}
use seter.Prelude.Ipv4.{parse_ipv4}
use seter.HostPatterns.{
  HostError, invalid_label, digit_or_dot, label_char, first_is, last_is, valid_label,
  validate_exact_host, is_some,
}

digit_or_dot-lower : (c : ℕ) → digit_or_dot (lower c) ≡ digit_or_dot c
digit_or_dot-lower c = rw (is_ascii_digit-lower c, eqb-lower_dot c)

label_char-lower : (c : ℕ) → label_char (lower c) ≡ label_char c
label_char-lower c = rw (is_ascii_alphanumeric-lower c, eqb-lower_hyphen c)

is_empty-lower : (s : Text) → is_empty (to_ascii_lowercase s) ≡ is_empty s
is_empty-lower [] = refl
is_empty-lower (c ∷ s) = refl

first_is-lower :
    (p : ℕ → Bool) (h : (c : ℕ) → p (lower c) ≡ p c) (s : Text)
    → first_is p (to_ascii_lowercase s) ≡ first_is p s
first_is-lower p h [] = refl
first_is-lower p h (c ∷ s) = h c

last_is-lower :
    (p : ℕ → Bool) (h : (c : ℕ) → p (lower c) ≡ p c) (s : Text)
    → last_is p (to_ascii_lowercase s) ≡ last_is p s
last_is-lower p h [] = refl
last_is-lower p h (c ∷ []) = h c
last_is-lower p h (c ∷ d ∷ s) = last_is-lower p h (d ∷ s)

valid_label-lower : (s : Text) → valid_label (to_ascii_lowercase s) ≡ valid_label s
unfolding valid_label
valid_label-lower s = rw (
  is_empty-lower s,
  byte_len-to_ascii_lowercase s,
  first_is-lower is_ascii_alphanumeric is_ascii_alphanumeric-lower s,
  last_is-lower is_ascii_alphanumeric is_ascii_alphanumeric-lower s,
  all-to_ascii_lowercase label_char label_char-lower s,
)

contains_dot-lower : (s : Text) → contains_char b'.' (to_ascii_lowercase s) ≡ contains_char b'.' s
contains_dot-lower [] = refl
contains_dot-lower (c ∷ s) = rw (eqb-lower_dot c, contains_dot-lower s)

-- `ends_with(".")` is a test of the last character.
ends_with_dot : (s : Text) → ends_with (text ".") s ≡ last_is (λ c. eqb c b'.') s
ends_with_dot [] = refl
ends_with_dot (c ∷ []) = ground arith
ends_with_dot (c ∷ d ∷ s) = ground (arith, ends_with_dot (d ∷ s))

cons_first-lower :
    (c : ℕ) (parts : List Text)
    → cons_first (lower c) (map to_ascii_lowercase parts)
      ≡ map to_ascii_lowercase (cons_first c parts)
cons_first-lower c [] = refl
cons_first-lower c (part ∷ parts) = refl

pub split-lower :
    (s : Text) → split b'.' (to_ascii_lowercase s) ≡ map to_ascii_lowercase (split b'.' s)
split-lower [] = refl
split-lower (c ∷ s) = elim (Bool-cases (eqb c b'.')) [
  | inl dot ↦ rw (eqb-lower_dot c, split-lower s, dot)
  | inr other ↦ rw (eqb-lower_dot c, split-lower s, other) (cons_first-lower c (split b'.' s))
]

for_each-lower :
    (labels : List Text)
    → for_each (map to_ascii_lowercase labels) (λ label. ensure (valid_label label) invalid_label)
      ≡ for_each labels (λ label. ensure (valid_label label) invalid_label)
unfolding for_each
for_each-lower [] = refl
for_each-lower (l ∷ labels) = rw (valid_label-lower l, for_each-lower labels)

lower_of_digits : (s : Text) → all digit_or_dot s ≡ true → to_ascii_lowercase s ≡ s
lower_of_digits [] h = refl
lower_of_digits (c ∷ s) h = ground (arith, lower_of_digit c, lower_of_digits s)

-- Lower case does not change the verdict on a host.
pub validate_exact_host-lower :
    (host : Text) → validate_exact_host (to_ascii_lowercase host) ≡ validate_exact_host host
unfolding validate_exact_host
validate_exact_host-lower host = elim (Bool-cases (all digit_or_dot host)) [
  | inl digits ↦ rw (lower_of_digits host digits)
  | inr mixed ↦ rw (
    all-to_ascii_lowercase digit_or_dot digit_or_dot-lower host,
    mixed,
    is_empty-lower host,
    byte_len-to_ascii_lowercase host,
    ends_with_dot (to_ascii_lowercase host),
    ends_with_dot host,
    last_is-lower (λ c. eqb c b'.') eqb-lower_dot host,
    contains_dot-lower host,
    split-lower host,
    for_each-lower (split b'.' host),
  )
]

some_of_context {ℓ} :
    {A : Type ℓ} (e : HostError) (o : Option A)
    → (context e o >>= λ a. done) ≡ done
    → is_some o ≡ true
unfolding context ◌>>=◌
some_of_context e none h = cc
some_of_context e (some a) h = refl

-- What a valid host that is not numeric satisfies.
pub record IsDnsName (s : Text) : Type 0 where
  pub mixed : all digit_or_dot s ≡ false
  pub short : byte_len s ≤ 253
  pub last_label : last_is (λ c. eqb c b'.') s ≡ false
  pub dotted : contains_char b'.' s ≡ true
  pub labels : for_each (split b'.' s) (λ l. ensure (valid_label l) invalid_label) ≡ ok tt

-- A valid host is the canonical text of an address, or a name of labels.
pub validate_exact_host-cases :
    (s : Text) → validate_exact_host s ≡ ok tt → (is_some (parse_ipv4 s) ≡ true) ⊎ IsDnsName s
unfolding validate_exact_host
validate_exact_host-cases s h = elim (Bool-cases (all digit_or_dot s)) [
  | inl digits ↦ inl (some_of_context _ (parse_ipv4 s) (rw digits at h))
  | inr mixed ↦
      let (shape, h') = seq-eq-ok _ _ (rw mixed at h) in
      let (dot, labels) = seq-eq-ok _ _ h' in
      let shape' = ensure-eq-ok _ _ shape in
      inr (record {
        mixed = mixed;
        short = ground (arith, shape');
        last_label = rw (← ends_with_dot s) (ground (arith, shape'));
        dotted = ensure-eq-ok _ _ dot;
        labels = labels;
      })
]

pub IsDnsName-valid : (s : Text) → IsDnsName s → validate_exact_host s ≡ ok tt
unfolding validate_exact_host ensure ◌>>=◌
IsDnsName-valid [] n = cc (n.mixed)
IsDnsName-valid (c ∷ s) n =
    rw (n.mixed, le→leb _ _ n.short, ends_with_dot (c ∷ s), n.last_label, n.dotted, n.labels)

-- A label "a" in front of a name gives a valid host.
pub IsDnsName-prepend : (s : Text) → IsDnsName s → byte_len s ≤ 251 → IsDnsName (b'a' ∷ b'.' ∷ s)
unfolding valid_label for_each ensure ◌>>=◌
IsDnsName-prepend [] n h = absurd (false≢true (sym n.mixed))
IsDnsName-prepend (c ∷ s) n h = record {
  mixed = refl;
  short = omega arith;
  last_label = n.last_label;
  dotted = refl;
  labels = n.labels;
}
