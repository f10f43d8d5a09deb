-- ===== src/Tests/Machines.antt =====
-- Lifecycle commands over a small systemd: its state is the `ActiveState` of one unit.
use seter.Prelude.{
  ◌≡◌, ◌≢◌, refl, ◌⊎◌, true, false, none, some, List, [], ◌∷◌, ◌++◌, In, Result, ok, err, ensure,
  context, with_context, for_each, ◌>>=◌, and_then, if◌then◌else◌, try_fold,
}
use seter.Prelude.Eq.{◌==◌, nat_eq, list_eq}
use seter.Prelude.Text.{Text, text, strip_prefix}
use seter.Prelude.Text.Split.{lines}
use seter.Prelude.Text.Decimal.{parse_unsigned, parse_digits, value_from}
use seter.Prelude.Map.{get, contains_key}
use seter.Registry.{Workspace}
use seter.Registry.Select.{workspace}
use seter.Lifecycle.{
  Systemd, parse_unit, query_unit, state_for, classify_state, LifecycleError, must_be_stopped,
}
use seter.Lifecycle.Runner.{RunnerFiles, regular, check_helper, read_manifest, validate_runner}
use seter.Lifecycle.Units.{
  run_systemctl, start_validated, start_workspace, stop_unit, stop_workspace,
}
use seter.Lifecycle.Units.Outcomes.{
  IsUp, IsDown, IsValidRunner, start_workspace-IsUp, stop_workspace-IsDown,
}
use seter.Lifecycle.Storage.{
  Images, FileSystem, remove_file, remove_selected, reset_checks, reset_workspace, destroy_checks,
  destroy_project_volume,
}
use seter.Lifecycle.Storage.Preserved.{
  Differs, IsReady, reset_workspace-keeps, reset_workspace-removes, destroy_project_volume_lem,
}
use seter.Lifecycle.Collect.{
  Entry, Directories, inspect_entries, IsNeeded, collect_garbage, collect_entries,
  collect_garbage_lem,
}
use seter.Tests.Registries.{registry, minimal, identity, registry_valid}

abbrev pub after_command : List Text → Text → Text
after_command [] active = active
after_command (verb ∷ rest) active =
    if verb == text "start"
    then text "active"
    else if verb == text "stop"
    then text "inactive"
    else active

abbrev pub small : Systemd
small = record {
  Units = Text;
  show = λ active unit. ok (text "ActiveState=" ++ (active ++ text "\nSubState=dead\nMainPID=7\n"));
  command = λ arguments active. (ok tt, after_command arguments active);
}

abbrev pub files : RunnerFiles
files = record {
  exists = λ path. true;
  is_file = λ path. true;
  is_executable = λ path. true;
  manifest = λ path. regular 900 (some identity);
}

abbrev pub disk : FileSystem
disk = record {
  directory = λ name. elim (strip_prefix (text "./") name) [ none ↦ name | some rest ↦ rest ];
  cannot_create = λ name. false;
  is_locked = λ name. false;
  cannot_remove = λ directory file. false;
}

abbrev pub directories : Directories
directories = record {
  root_exists = true;
  root_entries = some (some (some true) ∷ some (some false) ∷ []);
  lists_known_hosts = true;
}

abbrev pub all_images : Images
all_images directory file = true

abbrev up : Text
up = text "active"

abbrev down : Text
down = text "inactive"

run_machine : Unit {0}
unfolding get contains_key ensure context with_context for_each try_fold ◌>>=◌ workspace parse_unit
    query_unit state_for classify_state lines parse_unsigned parse_digits value_from check_helper
    read_manifest validate_runner run_systemctl start_validated start_workspace stop_unit
    stop_workspace and_then remove_file remove_selected reset_checks reset_workspace destroy_checks
    destroy_project_volume collect_garbage collect_entries inspect_entries
run_machine = tt

found : workspace registry (text "minimal") ≡ ok minimal
unfolding run_machine
found = refl

started : start_workspace small files false registry (text "minimal") down ≡ (ok tt, up)
unfolding run_machine
started = refl

ended : stop_workspace small files false registry (text "minimal") up ≡ (ok tt, down)
unfolding run_machine
ended = refl

abbrev after_reset : Images
after_reset =
    (reset_workspace disk small files.exists registry (text "minimal") true false down down
      all_images).1

reset_runs :
    reset_workspace disk small files.exists registry
      (text "minimal")
      true
      false
      down
      down
      all_images
    ≡ (ok (text "Home" ∷ []), after_reset)
unfolding run_machine
reset_runs = refl

-- A workspace that is started between the two checks is not reset.
reset_race :
    reset_workspace disk small files.exists registry (text "minimal") true true down up all_images
    ≡ (err must_be_stopped, all_images)
unfolding run_machine
reset_race = refl

start_workspace-IsUp_example :
    (w : Workspace) × (workspace registry (text "minimal") ≡ ok w)
    × (IsUp small files false (text "minimal") w down ⊎ IsValidRunner small files false w)
    × IsUp small files false (text "minimal") w up
start_workspace-IsUp_example =
    start_workspace-IsUp small files false registry (text "minimal") down up started

stop_workspace-IsDown_example :
    (w : Workspace) × (workspace registry (text "minimal") ≡ ok w)
    × (IsDown small files false (text "minimal") w up
        ⊎ IsDown small files false (text "minimal") w down)
stop_workspace-IsDown_example =
    stop_workspace-IsDown small files false registry (text "minimal") up down ended

reset_workspace-keeps_example :
    ((reset_workspace disk small files.exists registry
          (text "minimal")
          true
          true
          down
          down
          all_images).1
        (text "minimal")
        (text "minimal-project.img")
      ≡ true)
    × ((d f : Text)
        → d ≢ text "minimal"
        → (reset_workspace disk small files.exists registry
              (text "minimal")
              true
              true
              down
              down
              all_images).1
            d f
          ≡ true)
reset_workspace-keeps_example =
    reset_workspace-keeps disk small files.exists registry (text "minimal") minimal registry_valid
      found true true down down all_images

reset_workspace-removes_example :
    (w : Workspace) × IsReady disk small files.exists registry (text "minimal") w down
    × ((true ≡ true → after_reset (text "minimal") w.storage.home.image ≡ false)
        × (false ≡ true → after_reset (text "minimal") w.storage.nix_store.image ≡ false))
reset_workspace-removes_example =
    reset_workspace-removes disk small files.exists registry (text "minimal") true false down down
      all_images (text "Home" ∷ []) after_reset reset_runs

abbrev destruction : Result LifecycleError (Unit {0}) × Images
destruction =
    destroy_project_volume disk small files.exists registry (text "minimal") down all_images

destroy_project_volume_example :
    ((d f : Text)
      → Differs (text "minimal") (text "minimal-project.img") d f
      → destruction.1 d f ≡ true)
    × (destruction.0 ≡ ok tt
        → IsReady disk small files.exists registry (text "minimal") minimal down
          × (destruction.1 (text "minimal") (text "minimal-project.img") ≡ false))
destroy_project_volume_example =
    destroy_project_volume_lem disk small files.exists registry (text "minimal") minimal found down
      all_images

abbrev known_hosts : List Entry
known_hosts = (text "minimal", true) ∷ (text "retired", true) ∷ []

collected :
    collect_garbage (λ name. false) registry directories known_hosts
    ≡ (ok tt, (text "minimal", true) ∷ [])
unfolding run_machine
collected = refl

abbrev collection : Result LifecycleError (Unit {0}) × List Entry
collection = collect_garbage (λ name. false) registry directories known_hosts

collect_garbage_example :
    (In (text "minimal", true) collection.1 → In (text "minimal", true) known_hosts)
    × ((IsNeeded registry (text "minimal", true)
          → In (text "minimal", true) known_hosts
          → In (text "minimal", true) collection.1)
        × (true ≡ true
            → collection.0 ≡ ok tt
            → In (text "minimal", true) collection.1
            → IsNeeded registry (text "minimal", true)))
collect_garbage_example =
    collect_garbage_lem (λ name. false) registry directories known_hosts (text "minimal", true)
