-- ===== src/Cli/Dispatch.antt =====
-- `run` of main.rs: which function each command calls, with which arguments. The function is named
-- by a constructor; `is_client` is `client::enabled`.
use seter.Prelude.{Bool, true, false, not, ◌&&◌, ◌||◌, Option, List, if◌then◌else◌}
use seter.Prelude.Text.{Text}
use seter.Cli.{Command, HostCommand, ProbeArguments, CompletionShell, PolicyCommand}

pub data Call : Type 0 where
  client_host : HostCommand → Call
  probe_endpoint : ProbeArguments → Call
  client_workspace : Command → Call
  print_names print_ca : Call
  print_address print_host_key : Text → Call
  audit_show : Text → Text → Bool → Call
  review_policy policy_status : Text → Text → Call
  lifecycle_init : Text → Option Text → Call
  lifecycle_import : Text → Option Text → Text → Call
  lifecycle_up lifecycle_down : Text → Call
  lifecycle_run : Text → Option Text → List Text → Call
  lifecycle_status : Option Text → Call
  lifecycle_shell : Text → Option Text → Bool → Call
  lifecycle_reset : Text → Bool → Bool → Bool → Call
  lifecycle_destroy_project : Text → Bool → Call
  privileged_reset : Text → Bool → Bool → Call
  lifecycle_gc privileged_collect : Call
  privileged_destroy privileged_start privileged_stop privileged_export : Text → Call
  generate_completions : CompletionShell → Call

-- The `matches!` on the privileged halves, and that on completions.
unfoldable pub is_internal : Command → Bool
is_internal (Command.start_workspace w) = true
is_internal (Command.stop_workspace w) = true
is_internal (Command.export_audit w) = true
is_internal (Command.reset_workspace w home nix_store) = true
is_internal Command.collect_garbage = true
is_internal (Command.destroy_project_volume w) = true
is_internal _ = false

unfoldable pub is_completions : Command → Bool
is_completions (Command.completions s) = true
is_completions _ = false

abbrev pub dispatch_policy : PolicyCommand → Call
dispatch_policy (PolicyCommand.policy_review w file) = review_policy w file
dispatch_policy (PolicyCommand.policy_status w file) = policy_status w file

-- The last `match`; its first arm is unreachable there.
unfoldable pub dispatch_local : Command → Call
dispatch_local (Command.host c) = client_host c
dispatch_local (Command.client_probe p) = probe_endpoint p
dispatch_local Command.list = print_names
dispatch_local (Command.ip w) = print_address w
dispatch_local (Command.audit w since paths) = audit_show w since paths
dispatch_local (Command.policy c) = dispatch_policy c
dispatch_local (Command.init w repo) = lifecycle_init w repo
dispatch_local (Command.import_bundle w repo bundle) = lifecycle_import w repo bundle
dispatch_local (Command.up w) = lifecycle_up w
dispatch_local (Command.down w) = lifecycle_down w
dispatch_local (Command.run w repo command) = lifecycle_run w repo command
dispatch_local (Command.status w) = lifecycle_status w
dispatch_local (Command.shell w repo root) = lifecycle_shell w repo root
dispatch_local (Command.ssh_host_key w) = print_host_key w
dispatch_local Command.proxy_ca = print_ca
dispatch_local (Command.reset r) =
    lifecycle_reset r.workspace (r.home || r.all_state) (r.nix_store || r.all_state) r.yes
dispatch_local (Command.destroy_project w confirmed) = lifecycle_destroy_project w confirmed
dispatch_local (Command.reset_workspace w home nix_store) = privileged_reset w home nix_store
dispatch_local Command.gc = lifecycle_gc
dispatch_local Command.collect_garbage = privileged_collect
dispatch_local (Command.destroy_project_volume w) = privileged_destroy w
dispatch_local (Command.start_workspace w) = privileged_start w
dispatch_local (Command.stop_workspace w) = privileged_stop w
dispatch_local (Command.export_audit w) = privileged_export w
dispatch_local (Command.completions s) = generate_completions s

abbrev dispatch_other : Bool → Command → Call
dispatch_other is_client c =
    if not (is_internal c) && not (is_completions c) && is_client
    then client_workspace c
    else dispatch_local c

unfoldable pub dispatch : Bool → Command → Call
dispatch is_client (Command.host c) = client_host c
dispatch is_client (Command.client_probe p) = probe_endpoint p
dispatch is_client c = dispatch_other is_client c
