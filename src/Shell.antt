-- ===== src/Shell.antt =====
-- The command lines that the program hands to a remote shell: the quoting of
-- crates/seter-cli/src/lifecycle/ssh.rs and client/transport.rs, and the commands that lifecycle.rs
-- and client/transport.rs build with it. The bootstrap scripts are parameters.
pub mod Reader
pub mod Quoting
pub mod Commands
use seter.Prelude.{ℕ, Bool, Option, none, some, List, [], ◌∷◌, ◌++◌, map, if◌then◌else◌, eqb}
use seter.Prelude.Text.{Text, text}
use seter.Prelude.Text.Split.{join}
use seter.Registry.{Repository, RepositoryCredential}

-- `value.replace('\'', "'\\''")`
abbrev pub escape : Text → Text
escape [] = []
escape (c ∷ s) =
    let rest = escape s in if eqb c b'\'' then b'\'' ∷ b'\\' ∷ b'\'' ∷ b'\'' ∷ rest else c ∷ rest

-- `shell_quote`, and `quote` of the client.
unfoldable pub shell_quote : Text → Text
shell_quote value = b'\'' ∷ (escape value ++ b'\'' ∷ [])

-- `join` of the client, and the same chain in `run_remote_command`.
unfoldable pub join_quoted : List Text → Text
join_quoted arguments = join (text " ") (map shell_quote arguments)

abbrev pub push_arguments : Text → List Text → Text
push_arguments command [] = command
push_arguments command (argument ∷ arguments) =
    push_arguments (command ++ b' ' ∷ shell_quote argument) arguments

-- `Client::seter_command`, with the configured `host_seter`.
unfoldable pub seter_command : Text → List Text → Text
seter_command host_seter arguments = push_arguments (shell_quote host_seter) arguments

unfoldable pub checkout_path : Repository → Text
checkout_path repository = text "/project/" ++ repository.checkout_name

abbrev pub or_empty : Option Text → Text
or_empty none = []
or_empty (some t) = t

abbrev pub placeholder_of : Option RepositoryCredential → Text
placeholder_of none = []
placeholder_of (some credential) = credential.placeholder

unfoldable pub local_remote_command : Text → Repository → Text → Text
local_remote_command script repository mode =
    text "sh -c "
    ++ shell_quote script
    ++ (text " seter-local-bootstrap "
        ++ shell_quote (checkout_path repository)
        ++ (b' ' ∷ shell_quote (or_empty repository.branch) ++ (b' ' ∷ shell_quote mode)))

-- `bootstrap_remote_command` panics on a remote repository without a URL: `none`.
abbrev remote_bootstrap : Text → Repository → Option Text → Option Text
remote_bootstrap script repository none = none
remote_bootstrap script repository (some url) = some (
    text "sh -c "
    ++ shell_quote script
    ++ (text " seter-bootstrap "
        ++ shell_quote url
        ++ (b' ' ∷ shell_quote (checkout_path repository)
            ++ (b' ' ∷ shell_quote (or_empty repository.branch)
                ++ (b' ' ∷ shell_quote (placeholder_of repository.credential))))))

unfoldable pub bootstrap_remote_command : Text → Text → Repository → Option Text
bootstrap_remote_command script local_script repository =
    if repository.local
    then some (local_remote_command local_script repository (text "check"))
    else remote_bootstrap script repository repository.url

unfoldable pub run_remote_command : Text → Text → List Text → Text
run_remote_command name checkout arguments =
    text "cd "
    ++ shell_quote checkout
    ++ (text " || { printf 'seter run: registered checkout is missing; run seter init %s\\n' "
        ++ shell_quote name
        ++ (text " >&2; exit 72; }; exec direnv exec . " ++ join_quoted arguments))
