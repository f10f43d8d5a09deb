-- ===== src/Tests/Shutdowns.antt =====
-- Stopping the Host and configuring the client, on the system of the attachments.
use seter.Prelude.{
  ◌≡◌, All, refl, Bool, true, false, none, some, List, [], ◌∷◌, ok, ensure, context, with_context,
  ◌>>=◌, and_then, try_fold,
}
use seter.Prelude.Text.{text}
use seter.Prelude.Text.Split.{lines}
use seter.Shell.{shell_quote, seter_command}
use seter.Cli.{Configuration}
use seter.Client.Config.{ClientConfig, default_config, validate_name, validate_config}
use seter.Client.Host.{Paths, ssh_arguments}
use seter.Client.Connections.{
  Connection, absent, System, Links, connection, connection_alive, remove_record, remove_socket,
  stop_connection,
}
use seter.Client.Connections.Attaching.{Client, browser_connection}
use seter.Client.Connections.Daemon.{browser_detach}
use seter.Client.Connections.Listing.{push_entry, connections}
use seter.Client.Shutdown.{Machine, listed_names, take_down, stop_all, stop}
use seter.Client.Shutdown.Cleared.{IsShutDown, stop-IsShutDown}
use seter.Client.Deployment.{resolve_flake, deployment_flake}
use seter.Client.Configuring.{update, stop_idle, configure, configure-IsValid}
use seter.Tests.Attachments.{system, client, browser_link, attached}

abbrev machine : Machine system
machine = record {
  client = client;
  remote_text = λ script masters. (ok (true, some (text "dev\nweb\n")), masters);
  entries = λ links. some (some (text "browser") ∷ []);
  state = λ masters. ok (text "Running");
  limactl_stop = λ masters. (ok 0, false);
}

run_shutdown : Unit {0}
unfolding ensure context with_context ◌>>=◌ and_then try_fold lines shell_quote seter_command
    ssh_arguments validate_name validate_config connection connection_alive remove_record
    remove_socket stop_connection browser_connection browser_detach push_entry connections
    listed_names take_down stop_all stop resolve_flake deployment_flake update stop_idle configure
run_shutdown = tt

abbrev off : Links system
off = (stop system machine attached).1

stop_result : stop system machine attached ≡ (ok 0, off)
unfolding run_shutdown
stop_result = refl

stop-IsShutDown_example : IsShutDown system machine attached off 0
stop-IsShutDown_example = stop-IsShutDown system machine attached off 0 stop_result

abbrev paths : Paths
paths = record { exists = λ path. false; is_file = λ path. true; canonicalize = λ path. some path }

flake_result :
    deployment_flake paths default_config (some (text "path:/etc/nixos")) none
    ≡ ok (text "path:/etc/nixos#seter-host")
unfolding run_shutdown
flake_result = refl

abbrev choice : Configuration
choice = record {
  lima = text "work";
  flake = some (text "github:demo/hosts");
  configuration = none;
  host_seter = none;
  exchange_directory = none;
  exchange_mount = none;
  cdp_port_file = none;
  cdp_port = some 9444;
  docker_socket = none;
  herdr_config = none;
  forward_agent = some false;
}

abbrev chosen_config : ClientConfig
chosen_config = record default_config {
  instance_name = text "work";
  flake = some (text "github:demo/hosts");
  cdp_port = 9444;
  forward_agent = false;
}

-- A system on which the ssh master of the browser's connection has gone, and its record is still there.
abbrev idle_system : System
idle_system = record {
  Masters = Bool;
  running = λ masters. ok masters;
  ssh = λ arguments masters. (ok masters, masters);
  exists = λ masters path. false;
  unlink = λ path masters. (ok tt, masters);
  is_socket = λ masters path. ok true;
  cannot_write = λ name. false;
  cannot_remove = λ name. false;
  sockets = text "/tmp/st";
  docker_socket = text "/tmp/docker.sock";
}

abbrev idle_client : Client idle_system
idle_client = record {
  config = default_config;
  home = client.home;
  canonicalize = client.canonicalize;
  is_file = client.is_file;
  modified = client.modified;
  endpoint_file = client.endpoint_file;
  lock = λ masters. ok tt;
  running = λ masters. ok true;
  ensure_running = λ masters. (ok tt, masters);
  endpoint = client.endpoint;
  remote_output = λ script masters. (ok true, masters);
  network = client.network;
}

abbrev idle_machine : Machine idle_system
idle_machine = record {
  client = idle_client;
  remote_text = λ script masters. (ok (true, none), masters);
  entries = λ links. some (some (text "browser") ∷ []);
  state = λ masters. ok (text "Running");
  limactl_stop = λ masters. (ok 0, false);
}

abbrev idle : Links idle_system
idle = record { records = attached.records; masters = false }

abbrev cleared : Links idle_system
cleared =
    (configure idle_system idle_machine paths (λ path. true) (λ config masters. ok (text "Running"))
      (λ config. true) choice idle).1

-- The record is there at the start, and gone at the end.
listed : connections idle_system (idle_machine.entries idle) idle ≡ ok (browser_link ∷ [])
unfolding run_shutdown
listed = refl

gone : cleared.records (text "browser") ≡ absent
unfolding run_shutdown
gone = refl

configured :
    configure idle_system idle_machine paths
      (λ path. true)
      (λ config masters. ok (text "Running"))
      (λ config. true)
      choice
      idle
    ≡ (ok chosen_config, cleared)
unfolding run_shutdown
configured = refl

configure-IsValid_example :
    (validate_config (λ path. true) chosen_config ≡ ok tt)
    × (chosen_config.instance_name ≡ choice.lima)
    × (found : List Connection) × (connections idle_system (idle_machine.entries idle) idle
        ≡ ok found)
    × All (λ d. cleared.records d.name ≡ absent) found
configure-IsValid_example =
    configure-IsValid idle_system idle_machine paths (λ path. true)
      (λ config masters. ok (text "Running")) (λ config. true) choice idle cleared chosen_config
      configured
