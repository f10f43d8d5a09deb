-- ===== src/Lifecycle/Delegate/Helper.antt =====
-- What seter does as root with the words it is given through sudo.
use seter.Prelude.{
  ◌≡◌, refl, ◌∙◌, Bool, true, false, ◌||◌, Option, none, some, List, [], ◌∷◌, ◌++◌, Result, ok, err,
  ensure, with_context, is_ok, ◌>>◌, and_then, arith,
}
use seter.Prelude.Eq.{nat_eq, list_eq}
use seter.Prelude.Text.{Text, text}
use seter.Privilege.{Environment, uses_test_state, elevated_command}
use seter.Cli.{Command}
use seter.Cli.Reader.{read_arguments, sort_words, IsOperand}
use seter.Cli.Dispatch.{
  Call, privileged_start, privileged_stop, privileged_reset, privileged_collect, privileged_destroy,
  dispatch, is_internal, dispatch_local,
}
use seter.Lifecycle.{LifecycleError, helper_failed, no_selection}
use seter.Lifecycle.Privileged.{Platform, Half, World, Outcome, run_half}
use seter.Lifecycle.Delegate.{
  Caller, reset_words, check_name, confirm, run_elevated, delegate_or_run, up, down, reset,
  destroy_project, gc,
}

-- The half that a call runs.
abbrev pub half_of : Call → Option Half
half_of (privileged_start name) = some (Half.start name)
half_of (privileged_stop name) = some (Half.stop name)
half_of (privileged_reset name home nix_store) = some (Half.reset name home nix_store)
half_of privileged_collect = some Half.collect
half_of (privileged_destroy name) = some (Half.destroy name)
half_of _ = none

abbrev pub read_half : Bool → Option Command → Option Half
read_half is_client none = none
read_half is_client (some c) = half_of (dispatch is_client c)

-- The words that the operations of Lifecycle/Delegate pass for a half.
abbrev pub words_of : Half → List Text
words_of (Half.start name) = text "__start" ∷ name ∷ []
words_of (Half.stop name) = text "__stop" ∷ name ∷ []
words_of (Half.reset name home nix_store) = reset_words name home nix_store
words_of (Half.destroy name) = text "__destroy-project" ∷ name ∷ []
words_of Half.collect = text "__gc" ∷ []

abbrev pub CanPass : Half → Type 0
CanPass (Half.start name) = IsOperand name
CanPass (Half.stop name) = IsOperand name
CanPass (Half.reset name home nix_store) = IsOperand name
CanPass (Half.destroy name) = IsOperand name
CanPass Half.collect = Unit

read-words_of :
    (is_client : Bool) (half : Half)
    → CanPass half
    → read_half is_client (read_arguments (words_of half)) ≡ some half
unfolding read_arguments sort_words dispatch dispatch_local is_internal
read-words_of is_client (Half.start name) plain = rw plain refl
read-words_of is_client (Half.stop name) plain = rw plain refl
read-words_of is_client (Half.reset name home nix_store) plain = ground arith
read-words_of is_client (Half.destroy name) plain = rw plain refl
read-words_of is_client Half.collect plain = refl

-- The operations of Lifecycle/Delegate with their arguments.
pub data Request : Type 0 where
  raise lower : Text → Request
  reset_storage : Text → Bool → Bool → Bool → Request
  destroy_volume : Text → Bool → Request
  collect_all : Request

abbrev pub half_for : Request → Half
half_for (Request.raise name) = Half.start name
half_for (Request.lower name) = Half.stop name
half_for (Request.reset_storage name home nix_store confirmed) = Half.reset name home nix_store
half_for (Request.destroy_volume name confirmed) = Half.destroy name
half_for Request.collect_all = Half.collect

same_steps :
    {platform : Platform} (m : Result LifecycleError (Unit {0})) (w : World platform)
    (next next' : Unit {0} → World platform → Outcome platform)
    → ((w' : World platform) → next tt w' ≡ next' tt w')
    → and_then (m, w) next ≡ and_then (m, w) next'
unfolding and_then
same_steps (ok tt) w next next' same = same w
same_steps (err e) w next next' same = refl

and_then_ok :
    {platform : Platform} (next : Unit {0} → World platform → Outcome platform) (w : World platform)
    → next tt w ≡ and_then (ok tt, w) next
unfolding and_then
and_then_ok next w = refl

module _ (platform : Platform) (root_environment : Environment) (is_client : Bool) where
  abbrev exit : Outcome platform → Bool × World platform
  exit (result, w) = (is_ok result, w)

  abbrev served : Option Half → World platform → Bool × World platform
  served none w = (false, w)
  served (some half) w = exit (run_half platform true root_environment half w)

  -- seter, run as root with these words: whether it succeeds, and what it leaves.
  abbrev pub serve : List Text → World platform → Bool × World platform
  serve words w = served (read_half is_client (read_arguments words)) w

  -- The outcome of a half, as the unprivileged process reports it.
  abbrev pub reported : Outcome platform → Outcome platform
  reported (result, w) = (ensure (is_ok result) helper_failed, w)

  module _ (caller : Caller platform) where
    abbrev pub perform : Request → World platform → Outcome platform
    perform (Request.raise name) = up platform caller name
    perform (Request.lower name) = down platform caller name
    perform (Request.reset_storage name home nix_store confirmed) =
        reset platform caller name home nix_store confirmed
    perform (Request.destroy_volume name confirmed) = destroy_project platform caller name confirmed
    perform Request.collect_all = gc platform caller

    -- What the unprivileged process asks for before it turns to sudo.
    abbrev pub checks : Request → Result LifecycleError (Unit {0})
    checks (Request.raise name) = check_name platform caller name
    checks (Request.lower name) = check_name platform caller name
    checks (Request.reset_storage name home nix_store confirmed) =
        ensure (home || nix_store) no_selection
        >> check_name platform caller name
        >> confirm caller.terminal confirmed name
    checks (Request.destroy_volume name confirmed) =
        check_name platform caller name
        >> confirm caller.terminal confirmed (text "destroy " ++ name)
    checks Request.collect_all = ok tt

    -- sudo runs seter as root.
    abbrev pub RunsSeter : List Text → Type 0
    RunsSeter command =
        (words : List Text) (w : World platform) → caller.sudo (command ++ words) w ≡ serve words w

    elevated :
        (command : List Text) (half : Half) (w : World platform)
        → elevated_command caller.current_exe caller.environment ≡ ok command
        → RunsSeter command
        → CanPass half
        → run_elevated platform caller (words_of half) w
          ≡ reported (run_half platform true root_environment half w)
    unfolding run_elevated and_then with_context
    elevated command half w found runs plain =
        rw (found, runs (words_of half) w, read-words_of is_client half plain) refl

    module _ (command : List Text) (half : Half)
        (user : uses_test_state caller.environment || caller.is_root ≡ false)
        (found : elevated_command caller.current_exe caller.environment ≡ ok command)
        (runs : RunsSeter command) (plain : CanPass half) where
      delegated :
          (w : World platform)
          → delegate_or_run platform caller none (words_of half) half w
            ≡ reported (run_half platform true root_environment half w)
      unfolding delegate_or_run and_then
      delegated w = rw user (elevated command half w found runs plain)

      delegated_named :
          (name : Text) (w : World platform)
          → delegate_or_run platform caller (some name) (words_of half) half w
            ≡ and_then
                (check_name platform caller name, w)
                (λ passed w'. reported (run_half platform true root_environment half w'))
      unfolding delegate_or_run
      delegated_named name w =
          rw user (same_steps _ w _ _ (λ w'. elevated command half w' found runs plain))

    -- For a user who is not root and is not in test mode, if the sudo command is found and sudo runs seter as root, and
    -- the name does not begin with a hyphen: each lifecycle operation that passes its checks does to the machine what
    -- its privileged half does for root, and succeeds if and only if that half does; one that does not pass them
    -- changes nothing.
    pub perform-run_half :
        (command : List Text) (r : Request) (w : World platform)
        → uses_test_state caller.environment || caller.is_root ≡ false
        → elevated_command caller.current_exe caller.environment ≡ ok command
        → RunsSeter command
        → CanPass (half_for r)
        → perform r w
          ≡ and_then
              (checks r, w)
              (λ passed w'. reported (run_half platform true root_environment (half_for r) w'))
    unfolding up down reset destroy_project gc
    perform-run_half command (Request.raise name) w user found runs plain =
        delegated_named command (Half.start name) user found runs plain name w
    perform-run_half command (Request.lower name) w user found runs plain =
        delegated_named command (Half.stop name) user found runs plain name w
    perform-run_half command (Request.reset_storage name home nix_store confirmed) w user found runs
          plain =
        same_steps _ w _ _
          (delegated command (Half.reset name home nix_store) user found runs plain)
    perform-run_half command (Request.destroy_volume name confirmed) w user found runs plain =
        same_steps _ w _ _ (delegated command (Half.destroy name) user found runs plain)
    perform-run_half command Request.collect_all w user found runs plain =
        delegated command Half.collect user found runs plain w ∙ and_then_ok _ w
