-- ===== src/Shell/Reader.antt =====
-- How a POSIX shell divides a command line into words and operators, for the characters that the
-- program leaves unquoted. Any other unquoted character has a meaning of its own to the shell, and
-- the reader refuses it.
use seter.Prelude.{ℕ, Bool, ◌||◌, Option, none, some, List, [], ◌∷◌, ◌++◌, any, if◌then◌else◌, eqb}
use seter.Prelude.Text.{Text, text}
use seter.Prelude.Text.Ascii.{is_ascii_alphanumeric}

pub data Token : Type 0 where
  word : Text → Token
  operator : ℕ → Token

-- Between two words, within a word, within single quotes and behind a backslash; with the part of
-- the word that has been read.
pub data Mode : Type 0 where
  between : Mode
  bare quoted escaped : Text → Mode

abbrev pub is_operator : ℕ → Bool
is_operator c = eqb c b'|' || eqb c b'&' || eqb c b';' || eqb c b'<' || eqb c b'>'

abbrev pub is_plain : ℕ → Bool
is_plain c = is_ascii_alphanumeric c || any (eqb c) (text "-_./{}:=,@%+")

abbrev pub started : Mode → Text
started between = []
started (bare w) = w
started (quoted w) = w
started (escaped w) = w

-- The word that ends here.
abbrev pub finished : Mode → List Token
finished between = []
finished (bare w) = word w ∷ []
finished (quoted w) = []
finished (escaped w) = []

-- A character outside quotes.
abbrev pub unquoted : Mode → ℕ → Option (List Token × Mode)
unquoted m c =
    if eqb c b' '
    then some (finished m, between)
    else if eqb c b'\''
    then some ([], quoted (started m))
    else if eqb c b'\\'
    then some ([], escaped (started m))
    else if is_operator c
    then some (finished m ++ operator c ∷ [], between)
    else if is_plain c
    then some ([], bare (started m ++ c ∷ []))
    else none

abbrev pub step : Mode → ℕ → Option (List Token × Mode)
step between c = unquoted between c
step (bare w) c = unquoted (bare w) c
step (quoted w) c = if eqb c b'\'' then some ([], bare w) else some ([], quoted (w ++ c ∷ []))
step (escaped w) c = if eqb c b'\n' then none else some ([], bare (w ++ c ∷ []))

abbrev pub prepend : List Token → Option (List Token) → Option (List Token)
prepend ts none = none
prepend ts (some us) = some (ts ++ us)

abbrev pub at_end : Mode → Option (List Token)
at_end between = some []
at_end (bare w) = some (word w ∷ [])
at_end (quoted w) = none
at_end (escaped w) = none

abbrev pub continue :
    Option (List Token × Mode) → (Mode → Option (List Token)) → Option (List Token)
continue none rest = none
continue (some (ts, m)) rest = prepend ts (rest m)

abbrev pub read_from : Mode → Text → Option (List Token)
read_from m [] = at_end m
read_from m (c ∷ s) = continue (step m c) (λ m'. read_from m' s)

abbrev pub read : Text → Option (List Token)
read s = read_from between s
