-- ===== src/Client/Host.antt =====
-- client/transport.rs: the Lima Host, its state, and the ssh command that reaches it. limactl and
-- the file system are parameters.
pub mod Running
use seter.Prelude.{
  ℕ, Bool, true, false, not, ◌&&◌, ◌||◌, Option, none, some, List, [], ◌∷◌, ◌++◌, is_empty, Result,
  ok, err, ensure, context, with_context, ◌>>=◌, ◌>>◌, if◌then◌else◌,
}
use seter.Prelude.Eq.{◌==◌, nat_eq, list_eq}
use seter.Prelude.Text.{Text, text, trim, contains_char, starts_with, ends_with}
use seter.Prelude.Text.Split.{split, join}
use seter.Shell.{shell_quote, join_quoted}
use seter.Client.Config.{ClientConfig, is_absolute}

pub data ClientError : Type 0 where
  lima_failed : Text → ClientError
  invalid_value startup_failed not_running_yet missing_ssh_config host_stopped : ClientError
  no_exchange outside_exchange relative_policy cannot_resolve missing_bundle irregular_bundle
        internal_command :
      ClientError

-- limactl: the state of the instances, what `list --format` prints for a field, and `start`, which
-- reports whether it succeeded.
pub record Lima : Type 1 where
  pub Instances : Type 0
  pub list : Instances → Text → Text → Result Text Text
  pub start : Instances → Text → Result Text Bool × Instances

-- What the file system answers.
pub record Paths : Type 0 where
  pub exists : Text → Bool
  pub is_file : Text → Bool
  pub canonicalize : Text → Option Text

pub record Endpoint : Type 0 where
  pub ssh_config : Text
  pub destination : Text

abbrev pub agent_option : Bool → Text
agent_option true = text "ForwardAgent=yes"
agent_option false = text "ForwardAgent=no"

abbrev pub tty_option : Bool → Text
tty_option true = text "-t"
tty_option false = text "-T"

-- The arguments of `Endpoint::ssh` and `Endpoint::session`.
unfoldable pub ssh_arguments : Endpoint → List Text
ssh_arguments e =
    text "-F"
    ∷ e.ssh_config
    ∷ text "-o"
    ∷ text "ForwardX11=no"
    ∷ text "-o"
    ∷ text "ServerAliveInterval=15"
    ∷ text "-o"
    ∷ text "ServerAliveCountMax=3"
    ∷ text "-o"
    ∷ text "ConnectTimeout=10"
    ∷ []

unfoldable pub session_arguments : Endpoint → Bool → Bool → List Text
session_arguments e tty agent =
    ssh_arguments e
    ++ (text "-o"
        ∷ text "ControlMaster=no"
        ∷ text "-o"
        ∷ text "ControlPath=none"
        ∷ text "-o"
        ∷ agent_option agent
        ∷ tty_option tty
        ∷ [])

abbrev cd_script : Option Text → Text
cd_script none = []
cd_script (some cwd) = text "cd " ++ (shell_quote cwd ++ text " || exit 72; ")

abbrev exec_script : Option (List Text) → Text
exec_script none = text "\"${SHELL:-/bin/sh}\" -l"
exec_script (some arguments) = join_quoted arguments

-- `host_script`, for a working directory that is UTF-8.
unfoldable pub host_script : Option (List Text) → Option Text → Text
host_script arguments cwd =
    text "export CDP_PORT_FILE=\"$HOME/.local/state/seter/client/DevToolsActivePort\"; "
    ++ (cd_script cwd ++ (text "exec " ++ exec_script arguments))

-- `Path::strip_prefix` on canonical paths, by components, and `join` of what is left.
abbrev pub strip_components : List Text → List Text → Option (List Text)
strip_components [] cs = some cs
strip_components (p ∷ ps) [] = none
strip_components (p ∷ ps) (c ∷ cs) = if p == c then strip_components ps cs else none

abbrev pub parts : Text → List Text
parts path = parts_of (split b'/' path)
  where
    parts_of : List Text → List Text
    parts_of [] = []
    parts_of (c ∷ cs) = if is_empty c then parts_of cs else c ∷ parts_of cs

abbrev pub join_path : Text → Text → Text
join_path base relative =
    if ends_with (text "/") base then base ++ relative else base ++ (b'/' ∷ relative)

module _ (paths : Paths) (config : ClientConfig) where
  abbrev pub local_policy_path : Text → Option Text → Result ClientError Text
  local_policy_path file none = err no_exchange
  local_policy_path file (some directory) = do
    root ← context cannot_resolve (paths.canonicalize directory)
    resolved ← context cannot_resolve (paths.canonicalize file)
    relative ← context outside_exchange (strip_components (parts root) (parts resolved))
    ok (join_path config.exchange_mount (join (text "/") relative))

  unfoldable pub policy_path : Text → Result ClientError Text
  policy_path file =
      if paths.exists file
      then local_policy_path file config.exchange_directory
      else ensure (is_absolute file) relative_policy >> ok file

  module _ (lima : Lima) where
    open lima use {Instances, list, start}

    unfoldable pub lima_value : Instances → Text → Result ClientError Text
    lima_value s name = do
      stdout ← with_context lima_failed (list s config.instance_name name)
      ensure (not (is_empty (trim stdout)) && not (contains_char b'\n' (trim stdout))) invalid_value
      ok (trim stdout)

    unfoldable pub is_running : Instances → Result ClientError Bool
    is_running s = do value ← lima_value s (text "Status"); ok (value == text "Running")

    abbrev pub Outcome : Type 0 → Type 0
    Outcome A = Result ClientError A × Instances

    abbrev started : Result Text Bool × Instances → Outcome (Unit {0})
    started (err e, s) = (err (lima_failed e), s)
    started (ok false, s) = (err startup_failed, s)
    started (ok true, s) = ((is_running s >>= λ up. ensure up not_running_yet), s)

    abbrev ensure_from : Result ClientError Bool → Instances → Outcome (Unit {0})
    ensure_from (err e) s = (err e, s)
    ensure_from (ok true) s = (ok tt, s)
    ensure_from (ok false) s = started (start s config.instance_name)

    unfoldable pub ensure_running : Instances → Outcome (Unit {0})
    ensure_running s = ensure_from (is_running s) s

    unfoldable pub endpoint : Instances → Result ClientError Endpoint
    endpoint s = do
      file ← lima_value s (text "SSHConfigFile")
      ensure (paths.is_file file) missing_ssh_config
      ok record { ssh_config = file; destination = text "lima-" ++ config.instance_name }

    -- `remote_command`: the arguments of ssh.
    unfoldable pub remote_command : Instances → Text → Bool → Bool → Result ClientError (List Text)
    remote_command s script tty agent = do
      e ← endpoint s
      ok (session_arguments e tty (agent && config.forward_agent) ++ e.destination ∷ script ∷ [])
