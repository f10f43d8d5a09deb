-- ===== src/Tests/Attachments.antt =====
-- Attaching a browser and connecting Docker, on a system on which each step succeeds.
use seter.Prelude.{
  ◌⊎◌, true, false, try_fold, and_then, err, ◌≡◌, refl, Bool, Option, none, some, List, [], ◌∷◌,
  all, ltb, ok, err, ensure, context, with_context, ◌>>=◌, if◌then◌else◌, Result,
}
use seter.Prelude.Text.{Text, text}
use seter.Prelude.Text.Ascii.{lower}
use seter.Prelude.Text.Split.{lines}
use seter.Prelude.Text.Decimal.{decimal, parse_unsigned, parse_digits, value_from}
use seter.Prelude.Text.Hex.{hexadecimal, parse_hex, parse_hex_digits, hex_value_from}
use seter.Client.Probe.{
  Bytes, find_window, take_chunk, decode_round, decode_from, decode_chunks, split_response,
}
use seter.Client.Probe.Request.{
  length_in, content_length, is_chunked, status_of, is_complete, read_all, parse_response, request,
}
use seter.Client.Probe.Endpoints.{validate_path, websocket_path}
use seter.Shell.{shell_quote, seter_command}
use seter.Client.Config.{default_config}
use seter.Client.Host.{Endpoint, ssh_arguments}
use seter.Client.Probe.Endpoints.{browser, docker}
use seter.Client.Connections.{
  Connection, absent, stored, System, Links, set_record, connection, connection_alive,
  remove_record, remove_socket, stop_connection,
}
use seter.Client.Connections.Starting.{establish, start_connection}
use seter.Client.Connections.Forwards.{read_browser_endpoint}
use seter.Client.Connections.Attaching.{
  AttachError, not_verified, Client, start_verified, browser_connection, docker_connection,
  browser_source, read_source, verify_browser, browser_attach,
}
use seter.Client.Connections.Daemon.{
  browser_detach, browser_status, verify_docker, docker_connect, docker_status,
}
use seter.Client.Connections.Listing.{push_entry, connections, list_forwards, forward_list}
use seter.Client.Connections.Verified.{Keeps, start_verified-stopped}
use seter.Client.Connections.Connected.{IsConnected, docker_connect-IsConnected}

abbrev ascii : Bytes → Option Text
ascii s = if all (λ c. ltb c 128) s then some s else none

abbrev response : List (Result Text Bytes)
response = ok (text "HTTP/1.1 200 OK\r\ncontent-length: 2\r\n\r\nOK") ∷ []

abbrev pub system : System
system = record {
  Masters = Bool;
  running = λ masters. ok true;
  ssh = λ arguments masters. (ok true, true);
  exists = λ masters path. false;
  unlink = λ path masters. (ok tt, masters);
  is_socket = λ masters path. ok true;
  cannot_write = λ name. false;
  cannot_remove = λ name. false;
  sockets = text "/tmp/st";
  docker_socket = text "/tmp/docker.sock";
}

abbrev host : Endpoint
host = record { ssh_config = text "/root/lima/ssh.config"; destination = text "lima-seter" }

abbrev browser_path : Text
browser_path = text "/devtools/browser/a-1"

abbrev pub client : Client system
client = record {
  config = default_config;
  home = some (text "/root");
  canonicalize = λ path. some path;
  is_file = λ path. true;
  modified = λ path. some 1;
  endpoint_file = λ path. some (29, some (text "9333\n/devtools/browser/a-1\n"));
  lock = λ masters. ok tt;
  running = λ masters. ok true;
  ensure_running = λ masters. (ok tt, masters);
  endpoint = λ masters. ok host;
  remote_output = λ script masters. (ok true, masters);
  network = λ masters. record {
    from_utf8 = ascii;
    tcp = λ port. some response;
    unix = λ path. some response;
    debugger_url = λ body. some (some (text "ws://localhost:9333/devtools/browser/a-1"));
  };
}

abbrev nothing : Links system
nothing = record { records = λ name. absent; masters = false }

abbrev pub browser_link : Connection
browser_link =
    browser_connection host 9222 9333
      (text "/root/Library/Application Support/Google/Chrome Beta/DevToolsActivePort") browser_path

abbrev pub attached : Links system
attached = record (set_record system (text "browser") (stored browser_link) nothing) {
  masters = true;
}

pub run_attach : Unit {0}
unfolding ensure context with_context ◌>>=◌ and_then try_fold lower lines decimal parse_unsigned
    parse_digits value_from hexadecimal parse_hex parse_hex_digits hex_value_from find_window
    take_chunk decode_round decode_from decode_chunks split_response length_in content_length
    is_chunked status_of is_complete read_all parse_response request validate_path websocket_path
    browser docker shell_quote seter_command ssh_arguments connection connection_alive remove_record
    remove_socket stop_connection establish start_connection read_browser_endpoint
    browser_connection docker_connection browser_source read_source verify_browser browser_attach
    browser_detach browser_status verify_docker docker_connect docker_status push_entry connections
    list_forwards forward_list
run_attach = tt

status_result : (browser_status system client attached).0 ≡ ok 0
unfolding run_attach
status_result = refl

detach_result : (browser_detach system client attached).1.records (text "browser") ≡ absent
unfolding run_attach
detach_result = refl

abbrev daemon : Connection
daemon = docker_connection host (text "/tmp/docker.sock") (text "/var/run/docker.sock")

abbrev connected : Links system
connected = record (set_record system (text "docker") (stored daemon) nothing) { masters = true }

connect_result : docker_connect system client nothing ≡ (ok tt, connected)
unfolding run_attach
connect_result = refl

docker_connect-IsConnected_example :
    Keeps system client (text "docker") nothing connected
    × (IsConnected system client nothing connected
        ⊎ (e : AttachError) × (◌≡◌ {A = Result AttachError (Unit {0})} (ok tt) (err e)))
docker_connect-IsConnected_example =
    docker_connect-IsConnected system client nothing connected (ok tt) connect_result

abbrev stopped : Links system
stopped = (stop_connection system browser_link attached).1

start_result : start_connection system browser_link nothing ≡ (ok tt, attached)
unfolding run_attach
start_result = refl

stop_result : stop_connection system browser_link attached ≡ (ok tt, stopped)
unfolding run_attach
stop_result = refl

start_verified-stopped_example :
    (start_verified system client browser_link (λ links. (err not_verified, links)) nothing
      ≡ (err not_verified, stopped))
    × (stopped.records (text "browser") ≡ absent)
unfolding browser_connection
start_verified-stopped_example =
    start_verified-stopped system client browser_link (λ links. (err not_verified, links)) nothing
      attached attached stopped not_verified start_result refl stop_result

list_result :
    connections system (some (some (text "browser") ∷ [])) attached ≡ ok (browser_link ∷ [])
unfolding run_attach
list_result = refl
