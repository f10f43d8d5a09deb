-- ===== src/Client/Commands/Words.antt =====
-- The grammar reads back the words of each command.
use seter.Prelude.{
  ◌≡◌, refl, Bool, true, false, Option, none, some, List, [], ◌∷◌, ◌++◌, All, arith,
}
use seter.Prelude.Eq.{nat_eq, list_eq}
use seter.Prelude.Text.{Text, text}
use seter.Cli.{Command, PolicyCommand}
use seter.Cli.Reader.{read_arguments, sort_words, IsOperand}
use seter.Client.Commands.{push_if, repository_argument}

-- The words of a command that the user chose, but for those behind `--`.
abbrev pub optional_words : Option Text → List Text
optional_words none = []
optional_words (some t) = t ∷ []

abbrev pub operands : Command → List Text
operands (Command.init w repo) = w ∷ optional_words repo
operands (Command.up w) = w ∷ []
operands (Command.down w) = w ∷ []
operands (Command.run w repo command) = w ∷ optional_words repo
operands (Command.shell w repo root) = w ∷ optional_words repo
operands (Command.status w) = optional_words w
operands (Command.ip w) = w ∷ []
operands (Command.audit w since shown) = w ∷ since ∷ []
operands (Command.policy (PolicyCommand.policy_review w file)) = w ∷ []
operands (Command.policy (PolicyCommand.policy_status w file)) = w ∷ []
operands (Command.ssh_host_key w) = w ∷ []
operands (Command.reset r) = r.workspace ∷ []
operands (Command.destroy_project w confirmed) = w ∷ []
operands _ = []

-- The flags of a reset.
pub read_reset :
    (w : Text) (home nix_store all_state confirmed : Bool)
    → IsOperand w
    → read_arguments (
        push_if confirmed (text "--yes") (
          push_if all_state (text "--all-state") (
            push_if nix_store
              (text "--nix-store")
              (push_if home (text "--home") (text "reset" ∷ w ∷ [])))))
      ≡ some (
          Command.reset record {
            workspace = w;
            home = home;
            nix_store = nix_store;
            all_state = all_state;
            yes = confirmed;
          })
unfolding read_arguments sort_words
read_reset w home nix_store all_state confirmed plain = ground arith

pub read_init :
    (w : Text) (repo : Option Text)
    → All IsOperand (w ∷ optional_words repo)
    → read_arguments (repository_argument (text "init" ∷ w ∷ []) repo) ≡ some (Command.init w repo)
unfolding read_arguments sort_words repository_argument
read_init w none (plain, rest) = rw plain refl
read_init w (some r) (plain, (also, rest)) = rw (plain, also) refl

pub read_run :
    (w : Text) (repo : Option Text) (c : Text) (cs : List Text)
    → All IsOperand (w ∷ optional_words repo)
    → read_arguments (repository_argument (text "run" ∷ w ∷ []) repo ++ text "--" ∷ [] ++ c ∷ cs)
      ≡ some (Command.run w repo (c ∷ cs))
unfolding read_arguments sort_words repository_argument
read_run w none c cs (plain, rest) = rw plain refl
read_run w (some r) c cs (plain, (also, rest)) = rw (plain, also) refl

pub read_shell :
    (w : Text) (repo : Option Text)
    → All IsOperand (w ∷ optional_words repo)
    → read_arguments (repository_argument (text "shell" ∷ w ∷ []) repo)
      ≡ some (Command.shell w repo false)
unfolding read_arguments sort_words repository_argument
read_shell w none (plain, rest) = rw plain refl
read_shell w (some r) (plain, (also, rest)) = rw (plain, also) refl

pub read_root_shell :
    (w : Text)
    → IsOperand w
    → read_arguments (text "shell" ∷ w ∷ text "--root" ∷ []) ≡ some (Command.shell w none true)
unfolding read_arguments sort_words
read_root_shell w plain = rw plain refl

pub read_audit :
    (w since : Text) (shown : Bool)
    → IsOperand w
    → IsOperand since
    → read_arguments
        (push_if shown (text "--paths") (text "audit" ∷ w ∷ text "--since" ∷ since ∷ []))
      ≡ some (Command.audit w since shown)
unfolding read_arguments sort_words
read_audit w since shown plain also = ground arith

pub read_destroy :
    (w : Text) (confirmed : Bool)
    → IsOperand w
    → read_arguments (push_if confirmed (text "--yes") (text "destroy-project" ∷ w ∷ []))
      ≡ some (Command.destroy_project w confirmed)
unfolding read_arguments sort_words
read_destroy w confirmed plain = ground arith

pub read_status :
    (w : Option Text)
    → All IsOperand (optional_words w)
    → read_arguments (text "status" ∷ optional_words w) ≡ some (Command.status w)
unfolding read_arguments sort_words
read_status none plain = refl
read_status (some w) (plain, rest) = rw plain refl
