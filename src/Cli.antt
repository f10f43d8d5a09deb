-- ===== src/Cli.antt =====
-- The command line (crates/seter-cli/src/cli.rs) and its dispatch (main.rs). clap's parsing of the
-- words enters as the command; a path is a text.
pub mod Reader
pub mod Dispatch
use seter.Prelude.{ℕ, Bool, Option, List}
use seter.Prelude.Text.{Text}

pub data BrowserCommand : Type 0 where
  attach : Option Text → Option ℕ → BrowserCommand
  detach browser_status : BrowserCommand

pub data DockerCommand : Type 0 where
  env docker_status disconnect : DockerCommand
  context_of : Option Text → Bool → DockerCommand

pub data ForwardCommand : Type 0 where
  forward_start : ℕ → Option ℕ → Bool → ForwardCommand
  forward_list : ForwardCommand
  forward_stop : ℕ → ForwardCommand

pub record Configuration : Type 0 where
  pub lima : Text
  pub flake : Option Text
  pub configuration : Option Text
  pub host_seter : Option Text
  pub exchange_directory : Option Text
  pub exchange_mount : Option Text
  pub cdp_port_file : Option Text
  pub cdp_port : Option ℕ
  pub docker_socket : Option Text
  pub herdr_config : Option Text
  pub forward_agent : Option Bool

pub record Deployment : Type 0 where
  pub flake : Option Text
  pub configuration : Option Text
  pub max_jobs : Option ℕ
  pub cores : Option ℕ

pub data HostCommand : Type 0 where
  configure : Configuration → HostCommand
  host_start host_stop host_status herdr : HostCommand
  host_shell : Option Text → HostCommand
  host_run : Option Text → List Text → HostCommand
  deploy : Deployment → HostCommand
  browser : BrowserCommand → HostCommand
  docker : DockerCommand → HostCommand
  forward : ForwardCommand → HostCommand

pub data PolicyCommand : Type 0 where
  policy_review policy_status : Text → Text → PolicyCommand

pub record ProbeArguments : Type 0 where
  pub port : Option ℕ
  pub socket : Option Text
  pub websocket_path : Option Text

pub record ResetArguments : Type 0 where
  pub workspace : Text
  pub home : Bool
  pub nix_store : Bool
  pub all_state : Bool
  pub yes : Bool

pub data CompletionShell : Type 0 where
  bash elvish fish power_shell zsh : CompletionShell

-- A repository key is optional where a second argument is.
pub data Command : Type 0 where
  host : HostCommand → Command
  client_probe : ProbeArguments → Command
  init : Text → Option Text → Command
  import_bundle : Text → Option Text → Text → Command
  up down ip ssh_host_key : Text → Command
  run : Text → Option Text → List Text → Command
  shell : Text → Option Text → Bool → Command
  status : Option Text → Command
  list proxy_ca gc collect_garbage : Command
  audit : Text → Text → Bool → Command
  policy : PolicyCommand → Command
  reset : ResetArguments → Command
  destroy_project : Text → Bool → Command
  completions : CompletionShell → Command
  start_workspace stop_workspace export_audit destroy_project_volume : Text → Command
  reset_workspace : Text → Bool → Bool → Command
