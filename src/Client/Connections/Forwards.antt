-- ===== src/Client/Connections/Forwards.antt =====
-- The commands of client/connections.rs that forward a service, stop a forward and disconnect Docker, and
-- the file of a browser's endpoint. `ensure_running` and `endpoint` are those of the client, as steps.
use seter.Prelude.{
  ℕ, Bool, Option, none, some, List, [], ◌∷◌, ◌++◌, Result, ok, ensure, context, with_context,
  ◌>>=◌, ◌>>◌, and_then, leb, ltb,
}
use seter.Prelude.Text.{Text, text}
use seter.Prelude.Text.Split.{lines}
use seter.Prelude.Text.Decimal.{decimal, parse_unsigned}
use seter.Client.Host.{ClientError, Endpoint}
use seter.Client.Probe.{ProbeError}
use seter.Client.Probe.Endpoints.{validate_path}
use seter.Client.Connections.{
  Connection, client_error, small_port, System, Links, Outcome, connection, stop_connection,
}
use seter.Client.Connections.Starting.{start_connection}

abbrev pub or_port : Option ℕ → ℕ → ℕ
or_port none port = port
or_port (some local) port = local

abbrev pub loopback_forward : ℕ → ℕ → Text
loopback_forward local port =
    text "127.0.0.1:" ++ (decimal local ++ (text ":127.0.0.1:" ++ decimal port))

-- The connection that `forward_start` builds.
unfoldable pub forward_connection : Endpoint → ℕ → ℕ → Connection
forward_connection endpoint local port = record {
  name = text "forward-" ++ decimal local;
  endpoint = endpoint;
  forward = loopback_forward local port;
  reverse = Bool.false;
  local_port = some local;
  remote_port = some port;
  source_file = none;
  websocket_path = none;
}

module _ (system : System) where
  abbrev stop_if_known : Option Connection → Links system → Outcome system (Unit {0})
  stop_if_known none links = (ok tt, links)
  stop_if_known (some c) links = stop_connection system c links

  abbrev stop_named : Text → Links system → Outcome system (Unit {0})
  stop_named name links =
      and_then (connection system name links, links) λ found links₁. stop_if_known found links₁

  unfoldable pub docker_disconnect : Links system → Outcome system (Unit {0})
  docker_disconnect = stop_named (text "docker")

  unfoldable pub forward_stop : ℕ → Links system → Outcome system (Unit {0})
  forward_stop port = stop_named (text "forward-" ++ decimal port)

  -- `forward_start`, without opening the URL.
  module _ (ensure_running : Links system → Outcome system (Unit {0}))
      (endpoint : Links system → Result ClientError Endpoint) where
    unfoldable pub forward_start : ℕ → Option ℕ → Links system → Outcome system (Unit {0})
    forward_start port local links =
        and_then (ensure (leb 1024 (or_port local port)) small_port, links)
          λ allowed links₁. and_then (ensure_running links₁) λ running links₂.
            and_then (with_context client_error (endpoint links₂), links₂)
              λ e links₃.
                start_connection system (forward_connection e (or_port local port) port) links₃

pub data EndpointFileError : Type 0 where
  oversized unreadable empty invalid_port zero_port no_path : EndpointFileError
  invalid_path : ProbeError → EndpointFileError

abbrev first : List Text → Option Text
first [] = none
first (line ∷ rest) = some line

abbrev second : List Text → Option Text
second [] = none
second (line ∷ rest) = first rest

-- `read_browser_endpoint`; the contents are absent where the file cannot be read as text.
unfoldable pub read_browser_endpoint : ℕ → Option Text → Result EndpointFileError (ℕ × Text)
read_browser_endpoint len file = do
  ensure (leb len 8192) oversized
  contents ← context unreadable file
  line ← context empty (first (lines contents))
  port ← context invalid_port (parse_unsigned 65536 line)
  ensure (ltb 0 port) zero_port
  path ← context no_path (second (lines contents))
  with_context invalid_path (validate_path path)
  ok (port, path)
