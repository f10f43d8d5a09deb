-- ===== src/Tests/Delegations.antt =====
-- A user who stops the workspace of the test registry and resets it through sudo, on a machine whose
-- systemd is that of the lifecycle tests.
use mathlib.Core.Bool.{false≢true}
use seter.Prelude.{
  ap, ◌∙◌, ok_inj, Bool-cases, ◌≡◌, refl, inl, inr, true, false, none, some, List, [], ◌∷◌, ok,
  ensure, context, with_context, ◌>>=◌, and_then, if◌then◌else◌,
}
use seter.Prelude.Eq.{list_beq_iff, ◌==◌, nat_eq, list_eq}
use seter.Prelude.Text.{Text, text, trim}
use seter.Privilege.{
  Environment, remove_all, uses_test_state, elevated_command, enter_privileged_mode,
  enter_root_mode,
}
use seter.Privilege.Cleared.{Agree}
use seter.Prelude.Text.Split.{lines}
use seter.Prelude.Text.Decimal.{parse_unsigned, parse_digits, value_from}
use seter.Prelude.Map.{get, contains_key}
use seter.Registry.Select.{workspace}
use seter.Cli.Reader.{read_arguments, sort_words}
use seter.Cli.Dispatch.{dispatch, dispatch_local, is_internal}
use seter.Lifecycle.{Systemd, parse_unit, query_unit, state_for, classify_state}
use seter.Lifecycle.Units.{run_systemctl, stop_unit, stop_workspace}
use seter.Lifecycle.Privileged.{Platform, Half, World, run_half}
use seter.Lifecycle.Privileged.Isolated.{controlling_variables, run_half-Agree}
use seter.Lifecycle.Delegate.{Caller, check_name, delegate_or_run, run_elevated, down}
use seter.Lifecycle.Delegate.Helper.{Request, serve, reported, perform, checks, perform-run_half}
use seter.Lifecycle.Delegate.Confirmed.{IsTyped, storage, IsRefused, delete, unconfirmed}
use seter.Tests.Machines.{small, files, disk, directories, all_images}
use seter.Tests.Registries.{registry}

abbrev pub platform : Platform
platform = record {
  Units = Text;
  show = λ env. Systemd.show small;
  command = λ env. Systemd.command small;
  load = λ env. some registry;
  files = λ env. files;
  disk = λ env. disk;
  directories = λ env. directories;
  cannot_remove = λ name. false;
  meanwhile = λ units. units;
}

run_delegation : Unit {0}
unfolding ensure context with_context ◌>>=◌ and_then remove_all uses_test_state elevated_command
    enter_privileged_mode enter_root_mode run_half check_name delegate_or_run run_elevated down
    read_arguments sort_words dispatch dispatch_local is_internal get contains_key workspace
    parse_unit query_unit state_for classify_state lines parse_unsigned parse_digits value_from
    run_systemctl stop_unit stop_workspace
run_delegation = tt

abbrev empty : Environment
empty name = none

-- The registry is chosen by the caller.
abbrev overridden : Environment
overridden name = if name == text "SETER_REGISTRY" then some (text "/tmp/registry.json") else none

abbrev without_three : List Text → List Text
without_three (a ∷ b ∷ c ∷ rest) = rest
without_three words = []

abbrev pub user : Caller platform
user = record {
  is_root = false;
  environment = empty;
  current_exe = some (text "/run/current-system/sw/bin/seter");
  terminal = record { is_terminal = true; line = ok (text "other\n") };
  sudo = λ argv w. serve platform overridden false (without_three argv) w;
}

abbrev pub machine : World platform
machine = record { units = text "active"; images = all_images; known_hosts = [] }

stop_by_sudo :
    (perform platform overridden false user (Request.lower (text "minimal")) machine).0 ≡ ok tt
unfolding run_delegation
stop_by_sudo = refl

perform-run_half_example :
    perform platform overridden false user (Request.lower (text "minimal")) machine
    ≡ and_then
        (checks platform overridden false user (Request.lower (text "minimal")), machine)
        (λ passed w'.
          reported platform overridden false
            (run_half platform true overridden (Half.stop (text "minimal")) w'))
unfolding run_delegation
perform-run_half_example =
    perform-run_half platform overridden false user
      (text "/run/wrappers/bin/sudo" ∷ text "--" ∷ text "/run/current-system/sw/bin/seter" ∷ [])
      (Request.lower (text "minimal")) machine refl refl (λ words w. refl) refl

overridden-Agree : Agree controlling_variables empty overridden
overridden-Agree name = elim (Bool-cases (name == text "SETER_REGISTRY")) [
  | inl same ↦ inl (inl ((list_beq_iff name (text "SETER_REGISTRY")).0 same))
  | inr differs ↦ inr (rw differs refl)
]

untyped : ¬ IsTyped user.terminal (text "minimal")
untyped (interactive, answer, found, same) =
    false≢true ((list_beq_iff (text "other") (text "minimal")).1 (ap trim (ok_inj found) ∙ same))

run_half-Agree_example :
    run_half platform true empty (Half.stop (text "minimal")) machine
    ≡ run_half platform true overridden (Half.stop (text "minimal")) machine
run_half-Agree_example =
    run_half-Agree platform empty overridden overridden-Agree (Half.stop (text "minimal")) machine

unconfirmed_example :
    IsRefused platform (delete platform user (text "minimal") (storage true false) machine) machine
unconfirmed_example =
    unconfirmed platform user (text "minimal") (storage true false) machine untyped
