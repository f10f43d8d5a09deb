-- ===== src/Client/Connections/Attaching.antt =====
-- The commands of client/connections.rs that attach a browser and connect Docker: each probes what it has
-- connected, and stops the connection again where that fails. The client's files, the lock, the Host's commands and
-- the sockets are parameters.
use seter.Prelude.{
  ℕ, Bool, true, false, Option, none, some, List, [], ◌∷◌, ◌++◌, Result, ok, err, ensure, context,
  with_context, ◌>>=◌, and_then, leb, if◌then◌else◌,
}
use seter.Prelude.Eq.{nat_eq, list_eq, option_eq}
use seter.Prelude.Text.{Text, text}
use seter.Prelude.Text.Decimal.{decimal}
use seter.Shell.{shell_quote, seter_command}
use seter.Client.Config.{ClientConfig}
use seter.Client.Host.{ClientError, Endpoint, join_path}
use seter.Client.Probe.{ProbeError}
use seter.Client.Probe.Endpoints.{Network, browser}
use seter.Client.Connections.{
  Connection, ConnectionError, client_error, System, Links, Outcome, connection, stop_connection,
}
use seter.Client.Connections.Starting.{start_connection}
use seter.Client.Connections.Forwards.{
  EndpointFileError, unreadable, read_browser_endpoint, loopback_forward, or_port,
}

pub data AttachError : Type 0 where
  failed : ConnectionError → AttachError
  bad_endpoint_file : EndpointFileError → AttachError
  bad_probe : ProbeError → AttachError
  file_unavailable no_home no_endpoint_file : AttachError
  not_verified not_published endpoint_kept not_down : AttachError
  long_socket no_daemon : AttachError
  no_source_file no_host_port : AttachError

-- What the client finds: its configuration and directories, the files of the user, the lock, and the Host.
-- `remote_output` gives whether the command succeeded.
pub record Client (system : System) : Type 0 where
  pub config : ClientConfig
  pub home : Option Text
  pub canonicalize : Text → Option Text
  pub is_file : Text → Bool
  pub modified : Text → Option ℕ
  pub endpoint_file : Text → Option (ℕ × Option Text)
  pub lock : system.Masters → Result ClientError (Unit {0})
  pub running : system.Masters → Result ClientError Bool
  pub ensure_running : system.Masters → Result ClientError (Unit {0}) × system.Masters
  pub endpoint : system.Masters → Result ClientError Endpoint
  pub remote_output : Text → system.Masters → Result ClientError Bool × system.Masters
  pub network : system.Masters → Network

-- The keys of `max_by_key`: a file without a time comes first, and of two equal ones the later is taken.
abbrev pub is_not_after : Option ℕ → Option ℕ → Bool
is_not_after none key = true
is_not_after (some a) none = false
is_not_after (some a) (some b) = leb a b

abbrev later_of : (Text → Option ℕ) → Text → Option Text → Option Text
later_of key path none = some path
later_of key path (some other) =
    if is_not_after (key path) (key other) then some other else some path

abbrev pub max_by_key : (Text → Option ℕ) → List Text → Option Text
max_by_key key [] = none
max_by_key key (path ∷ paths) = later_of key path (max_by_key key paths)

abbrev pub keep_files : (Text → Bool) → List Text → List Text
keep_files is_file [] = []
keep_files is_file (path ∷ paths) =
    let rest = keep_files is_file paths in if is_file path then path ∷ rest else rest

abbrev pub first_of : Option Text → Option Text → Option Text
first_of (some path) other = some path
first_of none other = other

-- `browser_attach`'s connection, and `docker_connect`'s.
unfoldable pub browser_connection : Endpoint → ℕ → ℕ → Text → Text → Connection
browser_connection endpoint port source_port file path = record {
  name = text "browser";
  endpoint = endpoint;
  forward = loopback_forward port source_port;
  reverse = true;
  local_port = some source_port;
  remote_port = some port;
  source_file = some file;
  websocket_path = some path;
}

unfoldable pub docker_connection : Endpoint → Text → Text → Connection
docker_connection endpoint socket daemon = record {
  name = text "docker";
  endpoint = endpoint;
  forward = socket ++ (b':' ∷ daemon);
  reverse = false;
  local_port = none;
  remote_port = none;
  source_file = none;
  websocket_path = none;
}

abbrev pub publish_script : ℕ → Text → Text
publish_script port path =
    text
      "set -eu; umask 077; directory=\"$HOME/.local/state/seter/client\"; mkdir -p \"$directory\"; temporary=$(mktemp \"$directory/.endpoint.XXXXXX\"); trap 'rm -f \"$temporary\"' EXIT HUP INT TERM; printf '%s\\n%s\\n' "
    ++ (shell_quote (decimal port)
        ++ (text " "
            ++ (shell_quote path
                ++ text
                    " >\"$temporary\"; mv -f \"$temporary\" \"$directory/DevToolsActivePort\"")))

abbrev pub removal_script : Text → Text
removal_script path =
    text
      "file=\"$HOME/.local/state/seter/client/DevToolsActivePort\"; if [ -f \"$file\" ] && [ \"$(sed -n '2p' \"$file\")\" = "
    ++ (shell_quote path ++ text " ]; then rm -f \"$file\"; fi")

abbrev pub probe_words : ℕ → Text → List Text
probe_words port path =
    text "__client-probe" ∷ text "--port" ∷ decimal port ∷ text "--websocket-path" ∷ path ∷ []

abbrev pub text_or_empty : Option Text → Text
text_or_empty none = []
text_or_empty (some s) = s

module _ (system : System) (client : Client system) where
  open client use {
    config, canonicalize, is_file, modified, endpoint_file, lock, running, ensure_running, endpoint,
    remote_output, network,
  }

  abbrev pub Steps : Type 0 → Type 0
  Steps A = Result AttachError A × Links system

  abbrev pub lifted : {A : Type 0} → Outcome system A → Steps A
  lifted (result, links) = (with_context failed result, links)

  abbrev pub of_client : {A : Type 0} → Result ClientError A → Result AttachError A
  of_client result = with_context (λ e. failed (client_error e)) result

  abbrev pub on_host : {A : Type 0} → Result ClientError A × system.Masters → Links system → Steps A
  on_host (result, masters) links = (of_client result, record links { masters = masters })

  -- `ensure_output(&self.remote_output(script)?, …)`
  abbrev pub remote : Text → AttachError → Links system → Steps (Unit {0})
  remote script e links =
      and_then (on_host (remote_output script links.masters) links)
        λ success links₁. (ensure success e, links₁)

  abbrev pub seter_checked : List Text → AttachError → Links system → Steps (Unit {0})
  seter_checked words e links = remote (seter_command config.host_seter words) e links

  unfoldable pub browser_source : Option Text → Result AttachError Text
  browser_source requested = source (first_of requested config.cdp_port_file)
    where
      in_chrome : Text → Text
      in_chrome home = join_path home (text "Library/Application Support/Google")

      newest : Text → Option Text
      newest home = max_by_key modified (
          keep_files is_file (
            join_path (in_chrome home) (text "Chrome/DevToolsActivePort")
            ∷ join_path (in_chrome home) (text "Chrome Beta/DevToolsActivePort")
            ∷ []))

      source : Option Text → Result AttachError Text
      source (some path) = context file_unavailable (canonicalize path)
      source none = context no_home client.home >>= λ home. context no_endpoint_file (newest home)

  unfoldable pub read_source : Text → Result AttachError (ℕ × Text)
  read_source file =
      with_context bad_endpoint_file
        (context unreadable (endpoint_file file) >>= λ found. read_browser_endpoint found.0 found.1)

  -- What follows the start: where it fails, the connection is stopped, whatever comes of that.
  abbrev pub stop_unless : Connection → Steps (Unit {0}) → Steps (Unit {0})
  stop_unless c (ok done, links) = (ok done, links)
  stop_unless c (err e, links) = (err e, (stop_connection system c links).1)

  abbrev pub start_verified :
      Connection → (Links system → Steps (Unit {0})) → Links system → Steps (Unit {0})
  start_verified c verify links =
      and_then (lifted (start_connection system c links))
        λ started links₁. stop_unless c (verify links₁)

  unfoldable pub verify_browser : ℕ → Text → Links system → Steps (Unit {0})
  verify_browser port path links =
      and_then (seter_checked (probe_words port path) not_verified links)
        λ verified links₁. remote (publish_script port path) not_published links₁

  unfoldable pub browser_attach : Option Text → Option ℕ → Links system → Steps (Unit {0})
  browser_attach requested_file requested_port links =
      and_then (browser_source requested_file, links)
        λ file links₁.
          and_then (read_source file, links₁)
            λ found links₂.
              and_then
                (
                  with_context bad_probe (browser (network links₂.masters) found.0 (some found.1)),
                  links₂,
                )
                λ probed links₃.
                  and_then (on_host (ensure_running links₃.masters) links₃) λ up links₄.
                    and_then (of_client (lock links₄.masters), links₄)
                      λ locked links₅.
                        and_then (of_client (endpoint links₅.masters), links₅)
                          λ e links₆.
                            start_verified
                              (browser_connection e (or_port requested_port config.cdp_port) found.0
                                file found.1)
                              (verify_browser (or_port requested_port config.cdp_port) found.1)
                              links₆

  abbrev pub find_connection : Text → Links system → Steps (Option Connection)
  find_connection name links =
      and_then (of_client (lock links.masters), links)
        λ locked links₁. lifted (connection system name links₁, links₁)
