-- ===== src/Shell/Commands.antt =====
-- The words that the remote shell reads from the commands of the program.
use mathlib.Core.Bool.{false≢true}
use mathlib.Core.List.{append_assoc, append-nil}
use seter.Prelude.{
  ◌≡◌, refl, sym, ap, ◌∙◌, true, false, some, List, [], ◌∷◌, ◌++◌, map, Bool-cases, if◌then◌else◌,
  inl, inr, ◌⊎◌,
}
use seter.Prelude.Text.{Text, text}
use seter.Registry.{Repository}
use seter.Shell.{
  shell_quote, seter_command, push_arguments, checkout_path, or_empty, placeholder_of,
  local_remote_command, bootstrap_remote_command, run_remote_command,
}
use seter.Shell.Reader.{Token, word, operator, bare, prepend, read_from, read}
use seter.Shell.Quoting.{read_from-shell_quote, read-shell_quote, read-join_quoted}

abbrev spaced : List Text → Text
spaced [] = []
spaced (a ∷ rest) = b' ' ∷ (shell_quote a ++ spaced rest)

push_arguments-eq : (c : Text) (args : List Text) → push_arguments c args ≡ c ++ spaced args
push_arguments-eq c [] = sym (append-nil c)
push_arguments-eq c (a ∷ rest) =
    push_arguments-eq (c ++ b' ' ∷ shell_quote a) rest
    ∙ append_assoc c (b' ' ∷ shell_quote a) (spaced rest)

read_from-spaced :
    (w : Text) (args : List Text) → read_from (bare w) (spaced args) ≡ some (word w ∷ map word args)
read_from-spaced w [] = refl
read_from-spaced w (a ∷ rest) =
    ap (prepend (word w ∷ [])) (read_from-shell_quote a (spaced rest) ∙ read_from-spaced a rest)

-- The shell reads the command of the client as the path of seter and the arguments, each one word,
-- whatever characters they hold.
pub read-seter_command :
    (host_seter : Text) (arguments : List Text)
    → read (seter_command host_seter arguments) ≡ some (map word (host_seter ∷ arguments))
unfolding seter_command
read-seter_command h args =
    ap read (push_arguments-eq (shell_quote h) args)
    ∙ read_from-shell_quote h (spaced args)
    ∙ read_from-spaced h args

abbrev pub local_words : Text → Repository → Text → List Text
local_words script r mode =
    text "sh"
    ∷ text "-c"
    ∷ script
    ∷ text "seter-local-bootstrap"
    ∷ checkout_path r
    ∷ or_empty r.branch
    ∷ mode
    ∷ []

abbrev pub remote_words : Text → Repository → Text → List Text
remote_words script r url =
    text "sh"
    ∷ text "-c"
    ∷ script
    ∷ text "seter-bootstrap"
    ∷ url
    ∷ checkout_path r
    ∷ or_empty r.branch
    ∷ placeholder_of r.credential
    ∷ []

pub read-local_remote_command :
    (script : Text) (r : Repository) (mode : Text)
    → read (local_remote_command script r mode) ≡ some (map word (local_words script r mode))
unfolding local_remote_command
read-local_remote_command script r mode = rw (read_from-shell_quote script) (
    rw (read_from-shell_quote (checkout_path r))
      (rw (read_from-shell_quote (or_empty r.branch)) (rw (read-shell_quote mode) refl)))

needs_url :
    (r : Repository) (url : Text)
    → r.local ≡ false
    → (r.local ≡ true) ⊎ (r.url ≡ some url)
    → r.url ≡ some url
needs_url r url away (inl here) = absurd (false≢true (sym away ∙ here))
needs_url r url away (inr e) = e

-- For a repository that is local or has a URL there is a bootstrap command, and the shell reads it
-- as `sh -c` with the bootstrap script of that kind of repository and that script's arguments: no
-- character of the URL, the checkout path, the branch or the placeholder is read as syntax.
pub read-bootstrap_remote_command :
    (script local_script : Text) (r : Repository) (url : Text)
    → (r.local ≡ true) ⊎ (r.url ≡ some url)
    → (command : Text) × (bootstrap_remote_command script local_script r ≡ some command)
      × (read command
          ≡ some (
              map word (
                if r.local
                then local_words local_script r (text "check")
                else remote_words script r url)))
unfolding bootstrap_remote_command local_remote_command checkout_path
read-bootstrap_remote_command script local_script r url e = elim (Bool-cases r.local) [
  | inl here ↦ rw here (_, refl, read-local_remote_command local_script r (text "check"))
  | inr away ↦
      rw (away, needs_url r url away e)
        (
          _,
          refl,
          rw (read_from-shell_quote script) (
              rw (read_from-shell_quote url) (
                rw (read_from-shell_quote (checkout_path r)) (
                  rw (read_from-shell_quote (or_empty r.branch))
                    (rw (read-shell_quote (placeholder_of r.credential)) refl)))),
        )
]

abbrev pub run_guard : Text → Text → List Token
run_guard name checkout =
    word (text "cd")
    ∷ word checkout
    ∷ operator b'|'
    ∷ operator b'|'
    ∷ word (text "{")
    ∷ word (text "printf")
    ∷ word (text "seter run: registered checkout is missing; run seter init %s\\n")
    ∷ word name
    ∷ operator b'>'
    ∷ operator b'&'
    ∷ word (text "2")
    ∷ operator b';'
    ∷ word (text "exit")
    ∷ word (text "72")
    ∷ operator b';'
    ∷ word (text "}")
    ∷ operator b';'
    ∷ []

-- The shell reads the command of `seter run` as the change to the checkout, which ends in `exit 72`
-- when it fails, and then `exec direnv exec .` with the arguments, each one word: no character of
-- the arguments, the checkout path or the name is read as syntax.
pub read-run_remote_command :
    (name checkout : Text) (arguments : List Text)
    → read (run_remote_command name checkout arguments)
      ≡ some (
          run_guard name checkout
          ++ map word (text "exec" ∷ text "direnv" ∷ text "exec" ∷ text "." ∷ arguments))
unfolding run_remote_command
read-run_remote_command name checkout arguments =
    rw (read_from-shell_quote checkout)
      (rw (read_from-shell_quote name) (rw (read-join_quoted arguments) refl))
