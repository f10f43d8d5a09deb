-- ===== src/Client/Connections/Daemon.antt =====
-- The other commands of client/connections.rs on the browser and on Docker: detaching, the states, and connecting
-- Docker.
use seter.Prelude.{
  ℕ, Bool, true, false, not, ◌&&◌, ◌||◌, Option, none, some, [], ◌∷◌, Result, ok, err, ensure,
  context, with_context, is_ok, ◌>>=◌, and_then, ltb, if◌then◌else◌,
}
use seter.Prelude.Eq.{◌==◌, nat_eq, list_eq, option_eq}
use seter.Prelude.Text.{Text, text, byte_len}
use seter.Shell.{seter_command}
use seter.Client.Probe.Endpoints.{docker}
use seter.Client.Connections.{
  Connection, connection_beq, System, Links, Outcome, connection, connection_alive, remove_socket,
  stop_connection,
}
use seter.Client.Connections.Attaching.{
  AttachError, bad_probe, endpoint_kept, no_source_file, no_host_port, long_socket, no_daemon,
  Client, Steps, lifted, of_client, on_host, remote, seter_checked, read_source, start_verified,
  find_connection, removal_script, probe_words, docker_connection, text_or_empty,
}

module _ (system : System) (client : Client system) where
  open client use {config, lock, running, ensure_running, endpoint, remote_output, network}

  abbrev remove_endpoint : Bool → Option Text → Links system → Steps system client (Unit {0})
  remove_endpoint false path links = (ok tt, links)
  remove_endpoint true path links =
      remote system client (removal_script (text_or_empty path)) endpoint_kept links

  abbrev detach : Option Connection → Links system → Steps system client (Unit {0})
  detach none links = (ok tt, links)
  detach (some c) links =
      and_then (of_client system client (running links.masters), links)
        λ up links₁.
          and_then (remove_endpoint up c.websocket_path links₁)
            λ removed links₂. lifted system client (stop_connection system c links₂)

  unfoldable pub browser_detach : Links system → Steps system client (Unit {0})
  browser_detach links =
      and_then (find_connection system client (text "browser") links)
        λ found links₁. detach found links₁

  -- The exit code of `browser_status`.
  abbrev reachable_code : Result AttachError Bool → Result AttachError ℕ
  reachable_code result = result >>= λ success. ok (if success then 0 else 3)

  abbrev check_host : Connection → Text → Links system → Steps system client ℕ
  check_host c path links =
      and_then (context no_host_port c.remote_port, links)
        λ port links₁.
          let (result, links₂) =
            on_host system client
              (remote_output (seter_command config.host_seter (probe_words port path))
                links₁.masters)
              links₁ in
          (reachable_code result, links₂)

  abbrev check_source :
      Connection → Result AttachError (ℕ × Text) → Links system → Steps system client ℕ
  check_source c (err e) links = (ok 3, links)
  check_source c (ok (port, path)) links =
      if not (some port == c.local_port) || not (some path == c.websocket_path)
      then (ok 3, links)
      else check_host c path links

  abbrev check_alive : Connection → Bool → Links system → Steps system client ℕ
  check_alive c false links = (ok 3, links)
  check_alive c true links =
      and_then (context no_source_file c.source_file, links)
        λ file links₁. check_source c (read_source system client file) links₁

  abbrev check_attached : Option Connection → Links system → Steps system client ℕ
  check_attached none links = (ok 3, links)
  check_attached (some c) links =
      and_then (lifted system client (connection_alive system c links))
        λ alive links₁. check_alive c alive links₁

  unfoldable pub browser_status : Links system → Steps system client ℕ
  browser_status links =
      and_then (find_connection system client (text "browser") links)
        λ found links₁. check_attached found links₁

  -- `docker_connect`: the connection that is there is kept if it is the one asked for and alive.
  abbrev pub stop_previous : Option Connection → Links system → Steps system client (Unit {0})
  stop_previous none links = (ok tt, links)
  stop_previous (some previous) links = lifted system client (stop_connection system previous links)

  abbrev pub clear_daemon : Bool → Links system → Steps system client (Unit {0})
  clear_daemon true links = (ok tt, links)
  clear_daemon false links =
      and_then (lifted system client (connection system (text "docker") links, links))
        λ previous links₁.
          and_then (stop_previous previous links₁)
            λ ended links₂. lifted system client (remove_socket system links₂)

  abbrev pub alive_or_false : Outcome system Bool → Steps system client Bool
  alive_or_false (ok alive, links) = (ok alive, links)
  alive_or_false (err e, links) = (ok false, links)

  abbrev pub is_current : Connection → Option Connection → Links system → Steps system client Bool
  is_current c none links = (ok false, links)
  is_current c (some previous) links =
      if connection_beq previous c
      then alive_or_false (connection_alive system previous links)
      else (ok false, links)

  unfoldable pub verify_docker : Text → Links system → Steps system client (Unit {0})
  verify_docker socket links =
      (with_context bad_probe (docker (network links.masters) socket), links)

  unfoldable pub docker_connect : Links system → Steps system client (Unit {0})
  docker_connect links =
      and_then (on_host system client (ensure_running links.masters) links) λ up links₁.
        and_then (of_client system client (lock links₁.masters), links₁)
          λ locked links₂.
            and_then (ensure (ltb (byte_len system.docker_socket) 104) long_socket, links₂)
              λ short links₃.
                and_then
                  (seter_checked system client
                    (text "__client-probe" ∷ text "--socket" ∷ config.docker_socket ∷ []) no_daemon
                    links₃)
                  λ reached links₄.
                    and_then (of_client system client (endpoint links₄.masters), links₄)
                      λ e links₅.
                        let c = docker_connection e system.docker_socket config.docker_socket in
                        and_then
                          (lifted system client (connection system (text "docker") links₅, links₅))
                          λ previous links₆.
                            and_then (is_current c previous links₆) λ current links₇.
                              and_then (clear_daemon current links₇) λ cleared links₈.
                                start_verified system client c (verify_docker system.docker_socket)
                                  links₈

  abbrev docker_code : Option Connection → Links system → Steps system client ℕ
  docker_code none links = (ok 3, links)
  docker_code (some c) links =
      and_then (lifted system client (connection_alive system c links)) λ alive links₁. (
        ok (if alive && is_ok (docker (network links₁.masters) system.docker_socket) then 0 else 3),
        links₁,
      )

  unfoldable pub docker_status : Links system → Steps system client ℕ
  docker_status links =
      and_then (find_connection system client (text "docker") links)
        λ found links₁. docker_code found links₁
