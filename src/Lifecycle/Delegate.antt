-- ===== src/Lifecycle/Delegate.antt =====
-- `up`, `down`, `reset`, `destroy_project` and `gc` of lifecycle.rs, with `delegate_or_run` of
-- lifecycle/privilege.rs: the checks of the unprivileged program, and the words it passes to sudo.
-- The registry that it reads, its terminal and sudo are parameters.
pub mod Helper
pub mod Confirmed
use seter.Prelude.{
  ℕ, Bool, true, false, not, ◌&&◌, ◌||◌, Option, none, some, List, [], ◌∷◌, ◌++◌, Result, ok, err,
  ensure, context, with_context, ◌>>=◌, ◌>>◌, and_then, if◌then◌else◌,
}
use seter.Prelude.Eq.{◌==◌, nat_eq, list_eq}
use seter.Prelude.Text.{Text, text, trim}
use seter.Registry.{Registry, Workspace}
use seter.Registry.Select.{workspace}
use seter.Privilege.{Environment, uses_test_state, elevated_command}
use seter.Lifecycle.{
  LifecycleError, unconfigured, no_selection, not_privileged, registry_failed, helper_failed,
  not_interactive, cancelled, read_failed,
}
use seter.Lifecycle.Privileged.{Platform, Half, World, Outcome, run_half}

-- The standard input: whether it is a terminal, and the line that `read_line` gives.
pub record Terminal : Type 0 where
  pub is_terminal : Bool
  pub line : Result Text Text

-- The user's process: who runs it, with which environment, and what sudo does with a command, where
-- a sudo that cannot be run counts as one that fails.
pub record Caller (platform : Platform) : Type 0 where
  pub is_root : Bool
  pub environment : Environment
  pub current_exe : Option Text
  pub terminal : Terminal
  pub sudo : List Text → World platform → Bool × World platform

-- The question of `reset` and `destroy_project`.
unfoldable pub confirm : Terminal → Bool → Text → Result LifecycleError (Unit {0})
confirm terminal true expected = ok tt
confirm terminal false expected = do
  ensure terminal.is_terminal not_interactive
  answer ← with_context read_failed terminal.line
  ensure (trim answer == expected) cancelled

abbrev pub push_flag : Bool → Text → List Text → List Text
push_flag true word arguments = arguments ++ word ∷ []
push_flag false word arguments = arguments

abbrev pub reset_words : Text → Bool → Bool → List Text
reset_words name home nix_store =
    push_flag nix_store (text "--nix-store")
      (push_flag home (text "--home") (text "__reset" ∷ name ∷ []))

module _ (platform : Platform) (caller : Caller platform) where
  open platform use {load}
  open caller use {is_root, environment, current_exe, terminal, sudo}

  -- `Registry::load_default()?.workspace(name)?`
  unfoldable pub check_name : Text → Result LifecycleError (Unit {0})
  check_name name = do
    registry ← context registry_failed (load environment)
    w ← with_context unconfigured (workspace registry name)
    ok tt

  abbrev check_if_named : Option Text → Result LifecycleError (Unit {0})
  check_if_named none = ok tt
  check_if_named (some name) = check_name name

  abbrev sudo_outcome : Bool × World platform → Outcome platform
  sudo_outcome (success, w) = (ensure success helper_failed, w)

  unfoldable pub run_elevated : List Text → World platform → Outcome platform
  run_elevated arguments w =
      and_then (with_context not_privileged (elevated_command current_exe environment), w)
        λ command w'. sudo_outcome (sudo (command ++ arguments) w')

  unfoldable pub delegate_or_run :
      Option Text → List Text → Half → World platform → Outcome platform
  delegate_or_run name arguments half w =
      if uses_test_state environment || is_root
      then run_half platform is_root environment half w
      else and_then (check_if_named name, w) λ checked w'. run_elevated arguments w'

  unfoldable pub up : Text → World platform → Outcome platform
  up name = delegate_or_run (some name) (text "__start" ∷ name ∷ []) (Half.start name)

  unfoldable pub down : Text → World platform → Outcome platform
  down name = delegate_or_run (some name) (text "__stop" ∷ name ∷ []) (Half.stop name)

  unfoldable pub reset : Text → Bool → Bool → Bool → World platform → Outcome platform
  reset name home nix_store confirmed w =
      and_then
        (
          (ensure (home || nix_store) no_selection
              >> check_name name
              >> confirm terminal confirmed name),
          w,
        )
        λ checked w'.
          delegate_or_run none (reset_words name home nix_store) (Half.reset name home nix_store) w'

  unfoldable pub destroy_project : Text → Bool → World platform → Outcome platform
  destroy_project name confirmed w =
      and_then ((check_name name >> confirm terminal confirmed (text "destroy " ++ name)), w)
        λ checked w'.
          delegate_or_run none (text "__destroy-project" ∷ name ∷ []) (Half.destroy name) w'

  unfoldable pub gc : World platform → Outcome platform
  gc = delegate_or_run none (text "__gc" ∷ []) Half.collect
