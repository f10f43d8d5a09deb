-- ===== src/Lifecycle/Units.antt =====
-- `start_workspace` and `stop_workspace`, as changes of systemd's state.
pub mod Outcomes
use seter.Prelude.{
  Bool, true, false, ◌||◌, Option, none, some, List, [], ◌∷◌, Result, ok, err, ensure, with_context,
  ◌>>=◌, ◌>>◌, and_then,
}
use seter.Prelude.Text.{Text, text}
use seter.Registry.{Registry, Workspace, RunnerIdentity}
use seter.Registry.Select.{workspace}
use seter.Lifecycle.{
  State, not_built, stopped, starting, running, stopping, failed, LifecycleError, unconfigured,
  systemctl_failed, is_stopping, not_deployed, invalid_runner, did_not_start, did_not_stop, vm_unit,
  runtime_unit, Systemd, state_for,
}
use seter.Lifecycle.Runner.{RunnerFiles, validate_runner}

abbrev pub is_up : State → Bool
is_up not_built = false
is_up stopped = false
is_up starting = true
is_up running = true
is_up stopping = false
is_up failed = false

abbrev pub is_down : State → Bool
is_down not_built = true
is_down stopped = true
is_down starting = false
is_down running = false
is_down stopping = false
is_down failed = false

module _ (systemd : Systemd) (files : RunnerFiles) (allow_non_store : Bool) where
  open systemd use {Units, command}

  abbrev pub Outcome : Type 0
  Outcome = Result LifecycleError (Unit {0}) × Units

  unfoldable pub run_systemctl : Text → Text → Units → Outcome
  run_systemctl verb unit units =
      let (result, units') = command (verb ∷ unit ∷ []) units in
      (with_context systemctl_failed result, units')

  abbrev pub state_of : Units → Text → Workspace → Result LifecycleError State
  state_of = state_for systemd files.exists

  -- A step that only reads, with `?`.
  abbrev pub observe : {A : Type 0} → Result LifecycleError A → Units → (A → Outcome) → Outcome
  observe (ok a) units next = next a
  observe (err e) units next = (err e, units)

  -- `start_workspace` from the validation of the Runner on.
  unfoldable pub start_validated : Text → Workspace → Units → Outcome
  start_validated name w units =
      observe
        (with_context (λ e. invalid_runner)
          (validate_runner files allow_non_store w.runner.path w.runner.identity))
        units
        λ valid. and_then (run_systemctl (text "start") (vm_unit name) units) λ started units'.
          observe (state_of units' name w) units'
            λ state. (ensure (is_up state) (did_not_start state), units')

  abbrev pub start_from : Text → Workspace → State → Units → Outcome
  start_from name w not_built units = (err not_deployed, units)
  start_from name w stopped units = start_validated name w units
  start_from name w starting units = (ok tt, units)
  start_from name w running units = (ok tt, units)
  start_from name w stopping units = (err is_stopping, units)
  start_from name w failed units =
      and_then (run_systemctl (text "reset-failed") (vm_unit name) units)
        λ cleared units'. start_validated name w units'

  unfoldable pub start_workspace : Registry → Text → Units → Outcome
  start_workspace registry name units =
      observe (with_context unconfigured (workspace registry name)) units
        λ w. observe (state_of units name w) units λ state. start_from name w state units

  unfoldable pub stop_unit : Text → Workspace → Units → Outcome
  stop_unit name w units = and_then (run_systemctl (text "stop") (vm_unit name) units) λ vm units₁.
      and_then (run_systemctl (text "stop") (runtime_unit name) units₁) λ runtime units₂.
        observe (state_of units₂ name w) units₂
          λ state. (ensure (is_down state) (did_not_stop state), units₂)

  abbrev pub stop_from : Text → Workspace → Bool → Units → Outcome
  stop_from name w true units = run_systemctl (text "stop") (runtime_unit name) units
  stop_from name w false units = stop_unit name w units

  unfoldable pub stop_workspace : Registry → Text → Units → Outcome
  stop_workspace registry name units =
      observe (with_context unconfigured (workspace registry name)) units
        λ w. observe (state_of units name w) units λ state. stop_from name w (is_down state) units
