-- ===== src/Lifecycle.antt =====
-- The lifecycle commands (crates/seter-cli/src/lifecycle.rs): the states of a workspace and what
-- systemd says of its unit. systemd and the Runner's files are parameters: `systemctl show` is a
-- function of systemd's state to an output, any other `systemctl` command changes that state.
pub mod Runner
pub mod Units
pub mod Storage
pub mod Collect
pub mod Privileged
pub mod Delegate
pub mod Ssh
pub mod Sessions
use seter.Prelude.{
  ℕ, Bool, true, false, not, ◌&&◌, ◌||◌, Option, none, some, List, [], ◌∷◌, ◌++◌, Result, ok, err,
  ensure, with_context, ◌>>=◌, ◌>>◌, if◌then◌else◌,
}
use seter.Prelude.Eq.{◌==◌, nat_eq, list_eq}
use seter.Prelude.Text.{Text, text, strip_prefix}
use seter.Prelude.Text.Split.{lines}
use seter.Prelude.Text.Decimal.{parse_unsigned}
use seter.Registry.{Registry, Workspace}
use seter.Registry.Errors.{RegistryError}
use seter.Privilege.{PrivilegeError}

pub data State : Type 0 where
  not_built stopped starting running stopping failed : State

abbrev pub label : State → Text
label not_built = text "not-deployed"
label stopped = text "stopped"
label starting = text "starting"
label running = text "running"
label stopping = text "stopping"
label failed = text "failed"

pub data LifecycleError : Type 0 where
  unconfigured : RegistryError → LifecycleError
  systemctl_failed : Text → LifecycleError
  is_stopping not_deployed invalid_runner no_selection must_be_stopped busy : LifecycleError
  did_not_start did_not_stop : State → LifecycleError
  open_failed remove_failed : Text → LifecycleError
  not_privileged : PrivilegeError → LifecycleError
  registry_failed helper_failed not_interactive cancelled list_failed : LifecycleError
  read_failed : Text → LifecycleError
  no_key_type no_key_data empty_key_data no_identity invalid_identity stopped_while_waiting
        timed_out :
      LifecycleError
  unsupported_key_type unreadable_identity ssh_failed : Text → LifecycleError
  root_with_repository no_command not_local no_bundle irregular_bundle no_temporary_file no_url :
      LifecycleError

pub record UnitState : Type 0 where
  pub active : Text
  pub sub : Text
  pub main_pid : ℕ

unfoldable pub classify_state : Text → Text → Bool → State
classify_state active sub built =
    if active == text "active"
    then running
    else if active == text "activating"
    then starting
    else if active == text "deactivating"
    then stopping
    else if active == text "failed"
    then failed
    else if built
    then stopped
    else not_built

abbrev pub no_unit : UnitState
no_unit = record { active = text "inactive"; sub = text "dead"; main_pid = 0 }

abbrev pub or_zero : Option ℕ → ℕ
or_zero none = 0
or_zero (some n) = n

-- The ladder of `strip_prefix` in `query_unit`.
abbrev pub read_pid : UnitState → Option Text → UnitState
read_pid u none = u
read_pid u (some value) = record u { main_pid = or_zero (parse_unsigned 4294967296 value) }

abbrev pub read_sub : UnitState → Option Text → UnitState → UnitState
read_sub u none other = other
read_sub u (some value) other = record u { sub = value }

abbrev pub read_active : UnitState → Option Text → UnitState → UnitState
read_active u none other = other
read_active u (some value) other = record u { active = value }

abbrev pub read_property : UnitState → Text → UnitState
read_property u line = read_active u (strip_prefix (text "ActiveState=") line) (
    read_sub u (strip_prefix (text "SubState=") line)
      (read_pid u (strip_prefix (text "MainPID=") line)))

abbrev pub read_properties : UnitState → List Text → UnitState
read_properties u [] = u
read_properties u (line ∷ rest) = read_properties (read_property u line) rest

-- The loop of `query_unit` over the lines of the output.
unfoldable pub parse_unit : Text → UnitState
parse_unit output = read_properties no_unit (lines output)

abbrev pub vm_unit : Text → Text
vm_unit name = text "seter-vm-" ++ (name ++ text ".service")

abbrev pub runtime_unit : Text → Text
runtime_unit name = text "seter-runtime-" ++ (name ++ text ".target")

-- systemd: its state, what `show` prints for a unit or how it fails, and the other commands.
pub record Systemd : Type 1 where
  pub Units : Type 0
  pub show : Units → Text → Result Text Text
  pub command : List Text → Units → Result Text (Unit {0}) × Units

module _ (systemd : Systemd) (exists : Text → Bool) where
  open systemd use {Units, show, command}

  unfoldable pub query_unit : Units → Text → Result LifecycleError UnitState
  query_unit units name = do
    stdout ← with_context systemctl_failed (show units (vm_unit name))
    ok (parse_unit stdout)

  -- `state_for`, with `runner.path.exists()` as `exists`.
  unfoldable pub state_for : Units → Text → Workspace → Result LifecycleError State
  state_for units name workspace = do
    unit ← query_unit units name
    ok (classify_state unit.active unit.sub (exists workspace.runner.path))
