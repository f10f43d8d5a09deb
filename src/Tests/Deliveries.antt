-- ===== src/Tests/Deliveries.antt =====
-- A client of a Lima Host whose state says whether it runs, and what it sends.
use seter.Prelude.{
  ◌≡◌, refl, ◌↔◌, true, false, none, [], ◌∷◌, ok, ensure, context, with_context, ◌>>=◌, and_then,
  Bool, List, if◌then◌else◌,
}
use seter.Prelude.Eq.{◌==◌, nat_eq, list_eq}
use seter.Prelude.Text.{Text, text}
use seter.Shell.{seter_command, shell_quote, join_quoted}
use seter.Cli.{Command, PolicyCommand}
use seter.Cli.Reader.{read_arguments, sort_words}
use seter.Client.Config.{default_config}
use seter.Client.Host.{
  Lima, Paths, policy_path, lima_value, is_running, ensure_running, endpoint, remote_command,
  ssh_arguments, session_arguments,
}
use seter.Client.Host.Running.{IsReached, ensure_running_iff}
use seter.Client.Commands.{translate, workspace_command, repository_argument}

abbrev answer : Bool → Text → Text
answer up name =
    if name == text "Status"
    then (if up then text "Running\n" else text "Stopped\n")
    else text "/root/lima/ssh.config\n"

abbrev limactl : Lima
limactl = record {
  Instances = Bool;
  list = λ up instance name. ok (answer up name);
  start = λ up instance. (ok true, true);
}

abbrev no_files : Paths
no_files = record { exists = λ path. false; is_file = λ path. true; canonicalize = λ path. none }

run_delivery : Unit {0}
unfolding translate workspace_command repository_argument policy_path lima_value is_running
    ensure_running endpoint remote_command ssh_arguments session_arguments seter_command shell_quote
    join_quoted ensure context with_context ◌>>=◌ and_then read_arguments sort_words
run_delivery = tt

abbrev reset_home : Command
reset_home = Command.reset record {
  workspace = text "demo";
  home = true;
  nix_store = false;
  all_state = false;
  yes = true;
}

abbrev review_policy : Command
review_policy = Command.policy (PolicyCommand.policy_review (text "demo") (text "/srv/policy.json"))

abbrev session : List Text
session =
    text "-F"
    ∷ text "/root/lima/ssh.config"
    ∷ text "-o"
    ∷ text "ForwardX11=no"
    ∷ text "-o"
    ∷ text "ServerAliveInterval=15"
    ∷ text "-o"
    ∷ text "ServerAliveCountMax=3"
    ∷ text "-o"
    ∷ text "ConnectTimeout=10"
    ∷ text "-o"
    ∷ text "ControlMaster=no"
    ∷ text "-o"
    ∷ text "ControlPath=none"
    ∷ text "-o"
    ∷ text "ForwardAgent=yes"
    ∷ text "-T"
    ∷ text "lima-seter"
    ∷ text "exec '/run/current-system/sw/bin/seter' 'reset' 'demo' '--home' '--yes'"
    ∷ []

host_started : ensure_running no_files default_config limactl false ≡ (ok tt, true)
unfolding run_delivery
host_started = refl

host_stopped : is_running no_files default_config limactl false ≡ ok false
unfolding run_delivery
host_stopped = refl

review_translated :
    translate no_files default_config true review_policy
    ≡ ok record {
      arguments =
          text "policy"
          ∷ text "review"
          ∷ text "demo"
          ∷ text "--file"
          ∷ text "/srv/policy.json"
          ∷ [];
      tty = true;
      starts = false;
    }
unfolding run_delivery
review_translated = refl

-- As a test of cli.rs has it, --repo conflicts with --root; and what a command does not declare is refused.
root_with_repository :
    read_arguments
      (text "shell" ∷ text "product" ∷ text "--root" ∷ text "--repo" ∷ text "backend" ∷ [])
    ≡ none
unfolding run_delivery
root_with_repository = refl

undeclared_flag : read_arguments (text "up" ∷ text "product" ∷ text "--force" ∷ []) ≡ none
unfolding run_delivery
undeclared_flag = refl

flag_of_another_command : read_arguments (text "gc" ∷ text "--yes" ∷ []) ≡ none
unfolding run_delivery
flag_of_another_command = refl

ensure_running_iff_example :
    (ensure_running no_files default_config limactl false ≡ (ok tt, true))
    ↔ IsReached no_files default_config limactl false true
ensure_running_iff_example = ensure_running_iff no_files default_config limactl false true
