-- ===== src/Lifecycle/Privileged.antt =====
-- The privileged halves of lifecycle.rs as they run: each enters privileged mode, which decides what
-- it sees of the environment, reads the registry again, and acts on the machine.
pub mod Isolated
use seter.Prelude.{
  ℕ, Bool, true, false, not, ◌&&◌, ◌||◌, Option, none, some, List, Result, ok, err, ensure,
  with_context, ◌>>=◌, ◌>>◌, and_then,
}
use seter.Prelude.Text.{Text, text}
use seter.Registry.{Registry}
use seter.Privilege.{Environment, is_set, enter_privileged_mode}
use seter.Lifecycle.{LifecycleError, no_selection, not_privileged, registry_failed, Systemd}
use seter.Lifecycle.Runner.{RunnerFiles}
use seter.Lifecycle.Units.{start_workspace, stop_workspace}
use seter.Lifecycle.Storage.{Images, FileSystem, reset_workspace, destroy_project_volume}
use seter.Lifecycle.Collect.{Entry, Directories, collect_garbage}

-- What the system answers, for an environment, which names programs and directories. `meanwhile` is
-- what other processes do to systemd's units until the lock is held.
pub record Platform : Type 1 where
  pub Units : Type 0
  pub show : Environment → Units → Text → Result Text Text
  pub command : Environment → List Text → Units → Result Text (Unit {0}) × Units
  pub load : Environment → Option Registry
  pub files : Environment → RunnerFiles
  pub disk : Environment → FileSystem
  pub directories : Environment → Directories
  pub cannot_remove : Text → Bool
  pub meanwhile : Units → Units

pub data Half : Type 0 where
  start stop destroy : Text → Half
  reset : Text → Bool → Bool → Half
  collect : Half

module _ (platform : Platform) where
  open platform use {Units, show, command, load, files, disk, directories, cannot_remove, meanwhile}

  -- What the halves change.
  pub record World : Type 0 where
    pub units : Units
    pub images : Images
    pub known_hosts : List Entry

  abbrev pub Outcome : Type 0
  Outcome = Result LifecycleError (Unit {0}) × World

  abbrev systemd : Environment → Systemd
  systemd env = record { Units = Units; show = show env; command = command env }

  -- What is left of a result when its value is only printed.
  abbrev pub outcome : {A : Type 0} → Result LifecycleError A → World → Outcome
  outcome (ok a) w = (ok tt, w)
  outcome (err e) w = (err e, w)

  abbrev with_registry : Option Registry → (Registry → World → Outcome) → World → Outcome
  with_registry none act w = (err registry_failed, w)
  with_registry (some registry) act w = act registry w

  -- `enter_privileged_mode()?`, a guard, and `Registry::load_default()?`.
  abbrev entered :
      Result LifecycleError Environment
      → Result LifecycleError (Unit {0})
      → (Environment → Registry → World → Outcome)
      → World
      → Outcome
  entered (err e) guard act w = (err e, w)
  entered (ok env) (err e) act w = (err e, w)
  entered (ok env) (ok passed) act w = with_registry (load env) (act env) w

  abbrev privileged :
      Bool
      → Environment
      → Result LifecycleError (Unit {0})
      → (Environment → Registry → World → Outcome)
      → World
      → Outcome
  privileged is_root env guard act w =
      entered (with_context not_privileged (enter_privileged_mode is_root env)) guard act w

  abbrev set_units : Result LifecycleError (Unit {0}) × Units → World → Outcome
  set_units (result, units) w = (result, record w { units = units })

  abbrev set_images : {A : Type 0} → Result LifecycleError A × Images → World → Outcome
  set_images (result, images) w = outcome result (record w { images = images })

  abbrev set_known_hosts : Result LifecycleError (Unit {0}) × List Entry → World → Outcome
  set_known_hosts (result, entries) w = (result, record w { known_hosts = entries })

  abbrev allow_non_store : Environment → Bool
  allow_non_store env = is_set (env (text "SETER_ALLOW_NON_STORE_RUNNER"))

  -- `start_workspace`, `stop_workspace`, `reset_workspace`, `destroy_project_volume` and
  -- `collect_garbage`.
  unfoldable pub run_half : Bool → Environment → Half → World → Outcome
  run_half is_root environment (start name) =
      privileged is_root environment (ok tt) λ env registry w.
        set_units
          (start_workspace (systemd env) (files env) (allow_non_store env) registry name w.units) w
  run_half is_root environment (stop name) =
      privileged is_root environment (ok tt) λ env registry w.
        set_units
          (stop_workspace (systemd env) (files env) (allow_non_store env) registry name w.units) w
  run_half is_root environment (reset name home nix_store) =
      privileged is_root environment (ensure (home || nix_store) no_selection) λ env registry w.
        let final = meanwhile w.units in
        set_images
          (reset_workspace (disk env) (systemd env) (RunnerFiles.exists (files env)) registry name
            home nix_store w.units final w.images)
          (record w { units = final })
  run_half is_root environment (destroy name) =
      privileged is_root environment (ok tt) λ env registry w.
        let final = meanwhile w.units in
        set_images
          (destroy_project_volume (disk env) (systemd env) (RunnerFiles.exists (files env)) registry
            name final w.images)
          (record w { units = final })
  run_half is_root environment collect = privileged is_root environment (ok tt) λ env registry w.
      set_known_hosts (collect_garbage cannot_remove registry (directories env) w.known_hosts) w
