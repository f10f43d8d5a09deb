-- ===== src/Tests/Commands.antt =====
-- Commands for a remote shell.
use seter.Prelude.{◌≡◌, refl, false, none, some, [], ◌∷◌, ◌++◌, map}
use seter.Prelude.Text.{text}
use seter.Registry.{Repository}
use seter.Shell.{shell_quote, run_remote_command}
use seter.Shell.Reader.{word, read}
use seter.Shell.Commands.{run_guard, read-run_remote_command}

abbrev repository : Repository
repository = record {
  local = false;
  url = some (text "https://git.example/it's.git");
  branch = none;
  checkout_name = text "app";
  credential = none;
}

quote_test : shell_quote (text "it's") ≡ text "'it'\\''s'"
unfolding shell_quote
quote_test = refl

refused_test : read (text "echo $HOME") ≡ none
refused_test = refl

read-run_remote_command_example :
    read (run_remote_command (text "dev") (text "/project/app") (text "echo" ∷ text "$HOME" ∷ []))
    ≡ some (
        run_guard (text "dev") (text "/project/app")
        ++ map word (
            text "exec" ∷ text "direnv" ∷ text "exec" ∷ text "." ∷ text "echo" ∷ text "$HOME" ∷ []))
read-run_remote_command_example =
    read-run_remote_command (text "dev") (text "/project/app") (text "echo" ∷ text "$HOME" ∷ [])
