-- ===== src/Tests/Links.antt =====
-- Starting a forward on a system whose masters are the names of the open connections.
use seter.Prelude.{
  ◌≡◌, refl, Bool, true, false, some, ok, ensure, context, with_context, ◌>>=◌, and_then,
}
use seter.Prelude.Text.{text}
use seter.Prelude.Text.Split.{lines}
use seter.Prelude.Text.Decimal.{decimal, parse_unsigned, parse_digits, value_from}
use seter.Client.Host.{Endpoint, ssh_arguments}
use seter.Client.Probe.Endpoints.{validate_path}
use seter.Client.Connections.{
  Connection, absent, stored, System, Links, set_record, connection, connection_alive,
  remove_record, remove_socket, stop_connection,
}
use seter.Client.Connections.Starting.{establish, start_connection}
use seter.Client.Connections.Named.{begin, started, ended, IsNamed, Reachable-IsNamed}
use seter.Client.Connections.Forwards.{forward_connection, read_browser_endpoint}

-- ssh succeeds, and a check of the master says that it is alive.
abbrev system : System
system = record {
  Masters = Bool;
  running = λ masters. ok true;
  ssh = λ arguments masters. (ok true, true);
  exists = λ masters path. false;
  unlink = λ path masters. (ok tt, masters);
  is_socket = λ masters path. ok true;
  cannot_write = λ name. false;
  cannot_remove = λ name. false;
  sockets = text "/tmp/st";
  docker_socket = text "/tmp/docker.sock";
}

abbrev host : Endpoint
host = record { ssh_config = text "/root/lima/ssh.config"; destination = text "lima-seter" }

run_links : Unit {0}
unfolding ensure context with_context ◌>>=◌ and_then lines decimal parse_unsigned parse_digits
    value_from ssh_arguments validate_path connection connection_alive remove_record remove_socket
    stop_connection establish start_connection forward_connection read_browser_endpoint
run_links = tt

abbrev nothing : Links system
nothing = record { records = λ name. absent; masters = false }

abbrev forward : Connection
forward = forward_connection host 8080 80

abbrev linked : Links system
linked = record (set_record system forward.name (stored forward) nothing) { masters = true }

forward_started : start_connection system forward nothing ≡ (ok tt, linked)
unfolding run_links
forward_started = refl

endpoint_file_read :
    read_browser_endpoint 32 (some (text "9222\n/devtools/browser/a-1\n"))
    ≡ ok (9222, text "/devtools/browser/a-1")
unfolding run_links
endpoint_file_read = refl

nothing-IsNamed : IsNamed system nothing
nothing-IsNamed name c found = cc

Reachable-IsNamed_example :
    IsNamed system (stop_connection system forward (start_connection system forward nothing).1).1
Reachable-IsNamed_example =
    Reachable-IsNamed system nothing
      (stop_connection system forward (start_connection system forward nothing).1).1
      (ended forward (started forward begin)) nothing-IsNamed
