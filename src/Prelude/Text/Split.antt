-- ===== src/Prelude/Text/Split.antt =====
-- `split`, `split_once`, `rsplit_once` and `lines`.
pub mod Laws
use Prim.Native.Nat.{ℕ}
use mathlib.Core.Path.{◌≡◌, refl, ap, sym, ◌∙◌}
use mathlib.Core.Bool.{Bool, true, false, not}
use mathlib.Core.List.{List, [], ◌∷◌, ◌++◌, map}
use mathlib.Core.Option
use mathlib.Core.Option.{Option, none, some}
use native.Mathlib.Omega.{arith}
use seter.Prelude.Tests.{eqb, if◌then◌else◌, Bool-cases}
use seter.Prelude.Lists.{retain, is_empty}
use seter.Prelude.Text.{Text, text, strip_suffix, is_whitespace}
use seter.Prelude.Text.Ascii.{lower, eqb-lower_dot, to_ascii_lowercase}

-- Puts a character in front of the first part.
abbrev pub cons_first : ℕ → List Text → List Text
cons_first c [] = (c ∷ []) ∷ []
cons_first c (part ∷ parts) = (c ∷ part) ∷ parts

-- `s.split(c)`: always at least one part.
abbrev pub split : ℕ → Text → List Text
split sep [] = [] ∷ []
split sep (c ∷ s) = let rest = split sep s in if eqb c sep then [] ∷ rest else cons_first c rest

abbrev cons_left : ℕ → Text × Text → Text × Text
cons_left c (a, b) = (c ∷ a, b)

-- `s.split_once(c)`: at the first occurrence.
abbrev pub split_once : ℕ → Text → Option (Text × Text)
split_once sep [] = none
split_once sep (c ∷ s) =
    let rest = Option.map (cons_left c) (split_once sep s) in
    if eqb c sep then some ([], s) else rest

-- `s.rsplit_once(c)`: at the last occurrence.
abbrev pub or_here : Bool → Text → ℕ → Option (Text × Text) → Option (Text × Text)
or_here here s c (some (a, b)) = some (c ∷ a, b)
or_here true s c none = some ([], s)
or_here false s c none = none

abbrev pub rsplit_once : ℕ → Text → Option (Text × Text)
rsplit_once sep [] = none
rsplit_once sep (c ∷ s) = or_here (eqb c sep) s c (rsplit_once sep s)

-- `join(sep)`
abbrev pub join : Text → List Text → Text
join sep [] = []
join sep (part ∷ []) = part
join sep (part ∷ next ∷ parts) = part ++ (sep ++ join sep (next ∷ parts))

-- `split_whitespace()`
abbrev split_where : (ℕ → Bool) → Text → List Text
split_where p [] = [] ∷ []
split_where p (c ∷ s) = let rest = split_where p s in if p c then [] ∷ rest else cons_first c rest

abbrev pub split_whitespace : Text → List Text
split_whitespace s = retain (λ part. not (is_empty part)) (split_where is_whitespace s)

-- `lines()`: parts at line feeds, without a last empty part, each without a final carriage return.
abbrev strip_cr : Text → Text
strip_cr s = elim (strip_suffix (text "\r") s) [ none ↦ s | some r ↦ r ]

abbrev drop_last_empty : List Text → List Text
drop_last_empty [] = []
drop_last_empty ([] ∷ []) = []
drop_last_empty (part ∷ parts) = part ∷ drop_last_empty parts

unfoldable pub lines : Text → List Text
lines s = map strip_cr (drop_last_empty (split b'\n' s))
