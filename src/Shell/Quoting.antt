-- ===== src/Shell/Quoting.antt =====
-- What the shell reads back from quoted text.
use mathlib.Core.List.{append_assoc, append-nil}
use seter.Prelude.{
  ℕ, ◌≡◌, refl, sym, ap, ◌∙◌, false, Option, none, some, List, [], ◌∷◌, ◌++◌, map, Bool-cases, inl,
  inr, eqb, eqb_iff,
}
use seter.Prelude.Text.{Text}
use seter.Shell.{escape, shell_quote, join_quoted}
use seter.Shell.Reader.{
  Token, word, between, bare, quoted, prepend, continue, step, read_from, read,
}

prepend_nil : (o : Option (List Token)) → prepend [] o ≡ o
prepend_nil none = refl
prepend_nil (some ts) = refl

step-quoted :
    (w : Text) (c : ℕ) → eqb c b'\'' ≡ false → step (quoted w) c ≡ some ([], quoted (w ++ c ∷ []))
step-quoted w c h = rw h refl

-- Behind the opening quote the shell reads the text up to the closing quote.
read_from-escape :
    (w s r : Text) → read_from (quoted w) (escape s ++ b'\'' ∷ r) ≡ read_from (bare (w ++ s)) r
read_from-escape w [] r = prepend_nil _ ∙ ap (λ v. read_from (bare v) r) (sym (append-nil w))
read_from-escape w (c ∷ s) r =
    let shift : read_from (bare ((w ++ c ∷ []) ++ s)) r ≡ read_from (bare (w ++ c ∷ s)) r =
      ap (λ v. read_from (bare v) r) (append_assoc w (c ∷ []) s) in
    elim (Bool-cases (eqb c b'\'')) [
      | inl quote ↦
          let same : w ++ b'\'' ∷ [] ≡ w ++ c ∷ [] =
            ap (λ d. w ++ d ∷ []) (sym ((eqb_iff c b'\'').0 quote)) in
          rw quote (
            prepend_nil _
            ∙ prepend_nil _
            ∙ prepend_nil _
            ∙ prepend_nil _
            ∙ read_from-escape (w ++ b'\'' ∷ []) s r
            ∙ ap (λ v. read_from (bare (v ++ s)) r) same
            ∙ shift)
      | inr plain ↦ rw plain (
          ap (λ o. continue o (λ m'. read_from m' (escape s ++ b'\'' ∷ r))) (step-quoted w c plain)
          ∙ prepend_nil _
          ∙ read_from-escape (w ++ c ∷ []) s r
          ∙ shift)
    ]

pub read_from-shell_quote :
    (s r : Text) → read_from between (shell_quote s ++ r) ≡ read_from (bare s) r
unfolding shell_quote
read_from-shell_quote s r =
    prepend_nil _
    ∙ ap (read_from (quoted [])) (append_assoc (escape s) (b'\'' ∷ []) r)
    ∙ read_from-escape [] s r

pub read-shell_quote : (s : Text) → read (shell_quote s) ≡ some (word s ∷ [])
read-shell_quote s = ap read (sym (append-nil (shell_quote s))) ∙ read_from-shell_quote s []

-- The words that joined arguments are.
pub read-join_quoted :
    (arguments : List Text) → read (join_quoted arguments) ≡ some (map word arguments)
unfolding join_quoted
read-join_quoted [] = refl
read-join_quoted (a ∷ []) = read-shell_quote a
read-join_quoted (a ∷ b ∷ rest) =
    read_from-shell_quote a _ ∙ ap (prepend (word a ∷ [])) (read-join_quoted (b ∷ rest))
