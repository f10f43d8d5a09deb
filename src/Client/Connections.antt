-- ===== src/Client/Connections.antt =====
-- client/connections.rs: the records of forwarded connections and the ssh masters behind them. ssh, the
-- Host's state and the socket files are parameters that act on a state of the system; a record is a file that
-- holds a connection, or something else.
pub mod Starting
pub mod Records
pub mod Named
pub mod Forwards
pub mod Attaching
pub mod Daemon
pub mod Cleared
pub mod Verified
pub mod Attached
pub mod Connected
pub mod Listing
use seter.Prelude.{
  ℕ, Bool, true, false, not, ◌&&◌, ◌||◌, Option, none, some, List, [], ◌∷◌, ◌++◌, Result, ok, err,
  ensure, with_context, context, ◌>>=◌, ◌>>◌, and_then, leb, ltb, if◌then◌else◌,
}
use seter.Prelude.Eq.{◌==◌, nat_eq, list_eq, option_eq, list_beq}
use seter.Prelude.Text.{Text, text, byte_len}
use seter.Prelude.Text.Decimal.{decimal}
use seter.Lifecycle.Storage.{RemoveError, not_found, other_failure}
use seter.Client.Config.{identifier}
use seter.Client.Host.{ClientError, Endpoint, ssh_arguments, join_path}

pub record Connection : Type 0 where
  pub name : Text
  pub endpoint : Endpoint
  pub forward : Text
  pub reverse : Bool
  pub local_port : Option ℕ
  pub remote_port : Option ℕ
  pub source_file : Option Text
  pub websocket_path : Option Text

abbrev pub bool_beq : Bool → Bool → Bool
bool_beq true b = b
bool_beq false b = not b

-- `derive(PartialEq)`
abbrev pub connection_beq : Connection → Connection → Bool
connection_beq c d =
    c.name == d.name
    && c.endpoint.ssh_config == d.endpoint.ssh_config
    && c.endpoint.destination == d.endpoint.destination
    && c.forward == d.forward
    && bool_beq c.reverse d.reverse
    && c.local_port == d.local_port
    && c.remote_port == d.remote_port
    && c.source_file == d.source_file
    && c.websocket_path == d.websocket_path

pub data Stored : Type 0 where
  absent unreadable garbled : Stored
  stored : Connection → Stored

pub data ConnectionError : Type 0 where
  client_error : ClientError → ConnectionError
  cannot_execute : Text → ConnectionError
  invalid_state name_mismatch cannot_read host_stopped still_active not_established not_closed
        not_written not_removed :
      ConnectionError
  not_a_socket small_port invalid_filename : ConnectionError

-- The system: its state, whether the Host runs, what ssh does with its arguments and whether it succeeds,
-- the files of sockets, and the records that cannot be written or removed.
pub record System : Type 1 where
  pub Masters : Type 0
  pub running : Masters → Result ClientError Bool
  pub ssh : List Text → Masters → Result Text Bool × Masters
  pub exists : Masters → Text → Bool
  pub unlink : Text → Masters → Result RemoveError (Unit {0}) × Masters
  pub is_socket : Masters → Text → Result RemoveError Bool
  pub cannot_write : Text → Bool
  pub cannot_remove : Text → Bool
  pub sockets : Text
  pub docker_socket : Text

abbrev pub removed : Result RemoveError (Unit {0}) → Result ConnectionError (Unit {0})
removed (ok tt) = ok tt
removed (err e) = err not_removed

-- `remove_if_present`
abbrev pub removed_or_absent : Result RemoveError (Unit {0}) → Result ConnectionError (Unit {0})
removed_or_absent (ok tt) = ok tt
removed_or_absent (err not_found) = ok tt
removed_or_absent (err other_failure) = err not_removed

abbrev pub succeeded : ConnectionError → Result Text Bool → Result ConnectionError (Unit {0})
succeeded e result = with_context cannot_execute result >>= λ success. ensure success e

module _ (system : System) where
  open system use {
    Masters, running, ssh, exists, unlink, is_socket, cannot_write, cannot_remove, sockets,
    docker_socket,
  }

  pub record Links : Type 0 where
    pub records : Text → Stored
    pub masters : Masters

  abbrev pub Outcome : Type 0 → Type 0
  Outcome A = Result ConnectionError A × Links

  abbrev pub set_record : Text → Stored → Links → Links
  set_record name s links = record links {
    records = λ other. if other == name then s else links.records other;
  }

  -- `Client::control_path`
  abbrev pub control_path : Text → Text
  control_path name = join_path sockets (b'c' ∷ identifier name)

  abbrev pub on_masters : {A : Type 0} → Result ConnectionError A × Masters → Links → Outcome A
  on_masters (result, masters) links = (result, record links { masters = masters })

  abbrev pub read_stored : Text → Stored → Result ConnectionError (Option Connection)
  read_stored name absent = ok none
  read_stored name unreadable = err cannot_read
  read_stored name garbled = err invalid_state
  read_stored name (stored c) = ensure (c.name == name) name_mismatch >> ok (some c)

  -- `Client::connection`
  unfoldable pub connection : Text → Links → Result ConnectionError (Option Connection)
  connection name links = read_stored name (links.records name)

  abbrev control_arguments : Connection → Text → List Text
  control_arguments c command =
      ssh_arguments c.endpoint
      ++ (text "-S"
          ∷ control_path c.name
          ∷ text "-O"
          ∷ command
          ∷ text "-o"
          ∷ text "ForwardAgent=no"
          ∷ c.endpoint.destination
          ∷ [])

  -- `Client::connection_alive`
  unfoldable pub connection_alive : Connection → Links → Outcome Bool
  connection_alive c links =
      let (result, masters) = ssh (control_arguments c (text "check")) links.masters in
      on_masters (with_context cannot_execute result, masters) links

  abbrev pub remove_present : Text → Links → Outcome (Unit {0})
  remove_present name links =
      if cannot_remove name then (err not_removed, links) else (ok tt, set_record name absent links)

  abbrev pub remove_stored : Text → Links → Stored → Outcome (Unit {0})
  remove_stored name links absent = (ok tt, links)
  remove_stored name links unreadable = remove_present name links
  remove_stored name links garbled = remove_present name links
  remove_stored name links (stored c) = remove_present name links

  -- `remove_if_present` on a record.
  unfoldable pub remove_record : Text → Links → Outcome (Unit {0})
  remove_record name links = remove_stored name links (links.records name)

  abbrev pub unlink_control : Text → Links → Outcome (Unit {0})
  unlink_control name links =
      let (result, masters) = unlink (control_path name) links.masters in
      on_masters (removed_or_absent result, masters) links

  abbrev pub remove_known : Result RemoveError Bool → Links → Outcome (Unit {0})
  remove_known (err not_found) links = (ok tt, links)
  remove_known (err other_failure) links = (err not_removed, links)
  remove_known (ok false) links = (err not_a_socket, links)
  remove_known (ok true) links =
      let (result, masters) = unlink docker_socket links.masters in
      on_masters (removed result, masters) links

  -- `remove_socket`, on the socket of Docker.
  unfoldable pub remove_socket : Links → Outcome (Unit {0})
  remove_socket links = remove_known (is_socket links.masters docker_socket) links

  abbrev pub close_if : Bool → Connection → Links → Outcome (Unit {0})
  close_if false c links = (ok tt, links)
  close_if true c links =
      let (result, masters) = ssh (control_arguments c (text "exit")) links.masters in
      on_masters (succeeded not_closed result, masters) links

  abbrev pub remove_docker_if : Bool → Links → Outcome (Unit {0})
  remove_docker_if false links = (ok tt, links)
  remove_docker_if true links = remove_socket links

  unfoldable pub stop_connection : Connection → Links → Outcome (Unit {0})
  stop_connection c links = and_then (connection_alive c links) λ alive links₁.
      and_then (close_if alive c links₁) λ closed links₂.
        and_then (remove_record c.name links₂) λ gone links₃.
          and_then (unlink_control c.name links₃)
            λ unlinked links₄. remove_docker_if (c.name == text "docker") links₄
