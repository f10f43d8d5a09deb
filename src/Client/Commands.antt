-- ===== src/Client/Commands.antt =====
-- `workspace` of client.rs: a command for a workspace is sent to the Host as a seter command.
pub mod Words
pub mod Delivery
use seter.Prelude.{
  ℕ, Bool, true, false, not, ◌&&◌, ◌||◌, Option, none, some, List, [], ◌∷◌, ◌++◌, Result, ok, err,
  ensure, ◌>>=◌, ◌>>◌, and_then, if◌then◌else◌,
}
use seter.Prelude.Text.{Text, text}
use seter.Shell.{seter_command}
use seter.Cli.{Command, PolicyCommand, ResetArguments}
use seter.Client.Config.{ClientConfig}
use seter.Client.Host.{
  ClientError, missing_bundle, irregular_bundle, internal_command, host_stopped, Lima, Paths,
  policy_path, is_running, ensure_running, remote_command, Outcome,
}

-- What the `match` fills in; `bundle` is the file of an import.
pub record Request : Type 0 where
  pub arguments : List Text
  pub tty : Bool
  pub starts : Bool

unfoldable pub repository_argument : List Text → Option Text → List Text
repository_argument arguments none = arguments
repository_argument arguments (some repository) = arguments ++ text "--repo" ∷ repository ∷ []

abbrev pub push_if : Bool → Text → List Text → List Text
push_if true word arguments = arguments ++ word ∷ []
push_if false word arguments = arguments

abbrev request : List Text → Bool → Bool → Result ClientError Request
request arguments tty starts = ok record { arguments = arguments; tty = tty; starts = starts }

abbrev optional : Option Text → List Text
optional none = []
optional (some t) = t ∷ []

module _ (paths : Paths) (config : ClientConfig) (interactive : Bool) where
  abbrev pub policy_request : Text → Text → Text → Bool → Result ClientError Request
  policy_request action workspace file tty = do
    path ← policy_path paths config file
    request (text "policy" ∷ action ∷ workspace ∷ text "--file" ∷ path ∷ []) tty false

  -- The arms of the `match` but for that of an import.
  unfoldable pub translate : Command → Result ClientError Request
  translate (Command.init w repo) =
      request (repository_argument (text "init" ∷ w ∷ []) repo) false true
  translate (Command.up w) = request (text "up" ∷ w ∷ []) false true
  translate (Command.down w) = request (text "down" ∷ w ∷ []) false false
  translate (Command.run w repo command) =
      request (repository_argument (text "run" ∷ w ∷ []) repo ++ text "--" ∷ [] ++ command) false
        true
  translate (Command.shell w repo root) =
      request (push_if root (text "--root") (repository_argument (text "shell" ∷ w ∷ []) repo))
        interactive true
  translate (Command.status w) = request (text "status" ∷ optional w) false false
  translate Command.list = request (text "list" ∷ []) false false
  translate (Command.ip w) = request (text "ip" ∷ w ∷ []) false false
  translate (Command.audit w since shown) =
      request (push_if shown (text "--paths") (text "audit" ∷ w ∷ text "--since" ∷ since ∷ []))
        false false
  translate (Command.policy (PolicyCommand.policy_review w file)) =
      policy_request (text "review") w file interactive
  translate (Command.policy (PolicyCommand.policy_status w file)) =
      policy_request (text "status") w file false
  translate (Command.ssh_host_key w) = request (text "ssh-host-key" ∷ w ∷ []) false false
  translate Command.proxy_ca = request (text "proxy-ca" ∷ []) false false
  translate (Command.reset r) =
      request
        (push_if r.yes (text "--yes") (
          push_if r.all_state (text "--all-state") (
            push_if r.nix_store (text "--nix-store")
              (push_if r.home (text "--home") (text "reset" ∷ r.workspace ∷ [])))))
        (not r.yes && interactive) false
  translate (Command.destroy_project w confirmed) =
      request (push_if confirmed (text "--yes") (text "destroy-project" ∷ w ∷ []))
        (not confirmed && interactive) false
  translate Command.gc = request (text "gc" ∷ []) false false
  translate _ = err internal_command

  module _ (lima : Lima) where
    open lima use {Instances}

    -- `exec {seter_command}` over ssh.
    abbrev pub send : Request → Instances → Result ClientError (List Text)
    send r s =
        remote_command paths config lima s
          (text "exec " ++ seter_command config.host_seter r.arguments) r.tty true

    abbrev check_running : Instances → Result ClientError (Unit {0})
    check_running s = do up ← is_running paths config lima s; ensure up host_stopped

    abbrev pub reach : Bool → Instances → Outcome paths config lima (Unit {0})
    reach true s = ensure_running paths config lima s
    reach false s = (check_running s, s)

    abbrev pub after_translation :
        Result ClientError Request → Instances → Outcome paths config lima (List Text)
    after_translation (err e) s = (err e, s)
    after_translation (ok r) s = and_then (reach r.starts s) (λ reached s'. (send r s', s'))

    unfoldable pub workspace_command : Command → Instances → Outcome paths config lima (List Text)
    workspace_command c s = after_translation (translate c) s

    -- The arm of an import: the bundle is the standard input of the script.
    unfoldable pub import_script : Text → Option Text → Text
    import_script w repo =
        text
          "set -eu; temporary=$(mktemp); trap 'rm -f \"$temporary\"' EXIT HUP INT TERM; cat >\"$temporary\"; "
        ++ (seter_command config.host_seter (repository_argument (text "import" ∷ w ∷ []) repo)
            ++ text " --bundle \"$temporary\"")

    unfoldable pub import_command :
        Text → Option Text → Text → Instances → Outcome paths config lima (List Text)
    import_command w repo bundle s =
        and_then
          (
            (ensure (paths.exists bundle) missing_bundle
                >> ensure (paths.is_file bundle) irregular_bundle),
            s,
          )
          λ opened s₁. and_then (ensure_running paths config lima s₁) λ reached s₂.
            (remote_command paths config lima s₂ (import_script w repo) false true, s₂)
