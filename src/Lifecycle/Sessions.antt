-- ===== src/Lifecycle/Sessions.antt =====
-- `init`, `import`, `shell`, `run` and `status` of lifecycle.rs: what they check, the machine they start,
-- and the ssh commands they run in it. The result is the exit code.
pub mod Bootstrapped
use seter.Prelude.{
  ℕ, zero, suc, Bool, true, false, not, ◌&&◌, ◌||◌, Option, none, some, List, [], ◌∷◌, ◌++◌,
  is_empty, Result, ok, err, ensure, context, with_context, ◌>>=◌, ◌>>◌, and_then, for_each, eqb,
  if◌then◌else◌,
}
use seter.Prelude.Text.{Text, text}
use seter.Prelude.Map.{Map, keys}
use seter.Registry.{Registry, Workspace, Repository}
use seter.Registry.Select.{workspace, select_repository}
use seter.Shell.{
  shell_quote, checkout_path, local_remote_command, bootstrap_remote_command, run_remote_command,
}
use seter.Lifecycle.{
  State, not_built, stopped, starting, running, stopping, failed, LifecycleError, unconfigured,
  is_stopping, not_deployed, registry_failed, ssh_failed, root_with_repository, no_command,
  not_local, no_bundle, irregular_bundle, no_url, Systemd, query_unit, state_for,
}
use seter.Lifecycle.Runner.{RunnerFiles}
use seter.Lifecycle.Privileged.{Platform, World, Outcome}
use seter.Lifecycle.Delegate.{Caller, up}
use seter.Lifecycle.Ssh.{KeyFile, SshSession, session_command, connect}

-- What the caller's process finds: the public keys of the workspaces, its temporary file, the rounds of
-- the wait for SSH, whether a connection opens and which state systemd shows in each, and what ssh does with
-- its arguments, where no exit code is a death by a signal.
pub record Guest (platform : Platform) : Type 0 where
  pub key_file : Text → KeyFile
  pub temporary_file : Result LifecycleError Text
  pub rounds : ℕ
  pub connects : World platform → ℕ → Bool
  pub state_at : World platform → ℕ → Result LifecycleError State
  pub ssh : List Text → World platform → Result Text (Option ℕ) × World platform
  pub script : Text
  pub local_script : Text

abbrev pub code_or_255 : Option ℕ → ℕ
code_or_255 none = 255
code_or_255 (some code) = code

abbrev pub is_success : Option ℕ → Bool
is_success none = false
is_success (some code) = eqb code 0

abbrev pub init_code : Bool → ℕ
init_code true = 1
init_code false = 0

module _ (platform : Platform) (caller : Caller platform) (guest : Guest platform) where
  open platform use {show, command, load, files}
  open caller use {environment}
  open guest use {key_file, temporary_file, rounds, connects, state_at, ssh, script, local_script}

  abbrev pub Attempt : Type 0 → Type 0
  Attempt A = Result LifecycleError A × World platform

  abbrev systemd : Systemd
  systemd = record {
    Units = platform.Units;
    show = show environment;
    command = command environment;
  }

  -- `Registry::load_default()?` and `registry.workspace(name)?`
  abbrev pub find_workspace : Text → Result LifecycleError Workspace
  find_workspace name = do
    registry ← context registry_failed (load environment)
    with_context unconfigured (workspace registry name)

  -- `SshSession::connect`, and a command in the session.
  abbrev pub connect_to : Text → Workspace → World platform → Result LifecycleError SshSession
  connect_to name w world =
      connect (connects world) (state_at world) rounds temporary_file (key_file name) w

  unfoldable pub run_ssh : SshSession → Bool → Text → World platform → Attempt (Option ℕ)
  run_ssh session tty remote world =
      let (status, world') = ssh (session_command session tty ++ text "--" ∷ remote ∷ []) world in
      (with_context ssh_failed status, world')

  -- The choice of `init`.
  unfoldable pub selected : Workspace → Option Text → Result LifecycleError (Map Repository)
  selected w none = ok w.repositories
  selected w (some requested) = do
    entry ← with_context unconfigured (select_repository w (some requested))
    ok (entry ∷ [])

  -- The loop of `init`; `failed_before` is its flag. The panic on a remote repository without a URL is
  -- an error here.
  unfoldable pub bootstraps : SshSession → Map Repository → Bool → World platform → Attempt Bool
  bootstraps session [] failed_before world = (ok failed_before, world)
  bootstraps session ((key, repository) ∷ rest) failed_before world =
      and_then (context no_url (bootstrap_remote_command script local_script repository), world)
        λ remote world₁.
          and_then (run_ssh session false remote world₁) λ status world₂.
            bootstraps session rest (failed_before || not (is_success status)) world₂

  abbrev pub init_from : Text → Workspace → Map Repository → World platform → Attempt ℕ
  init_from name w repositories world = and_then (up platform caller name world) λ started world₁.
      and_then (connect_to name w world₁, world₁)
        λ session world₂.
          and_then (bootstraps session repositories false world₂)
            λ any_failed world₃. (ok (init_code any_failed), world₃)

  abbrev init_checks : Text → Option Text → Result LifecycleError (Workspace × Map Repository)
  init_checks name requested = do
    w ← find_workspace name
    repositories ← selected w requested
    ensure (RunnerFiles.exists (files environment) w.runner.path) not_deployed
    ok (w, repositories)

  unfoldable pub init : Text → Option Text → World platform → Attempt ℕ
  init name requested world =
      and_then (init_checks name requested, world)
        λ (w, repositories) world₁. init_from name w repositories world₁

  abbrev import_checks :
      Text → Option Text → Option Bool → Result LifecycleError (Workspace × Repository)
  import_checks name requested bundle = do
    w ← find_workspace name
    entry ← with_context unconfigured (select_repository w requested)
    ensure (Repository.local entry.1) not_local
    is_file ← context no_bundle bundle
    ensure is_file irregular_bundle
    ok (w, entry.1)

  abbrev with_code : Attempt (Option ℕ) → Attempt ℕ
  with_code outcome = and_then outcome λ status world. (ok (code_or_255 status), world)

  abbrev pub in_session : Text → Workspace → Bool → Text → World platform → Attempt ℕ
  in_session name w tty remote world =
      and_then (connect_to name w world, world)
        λ session world₁. with_code (run_ssh session tty remote world₁)

  -- `import`; `bundle` is whether the file that opens is a regular one.
  unfoldable pub import_bundle : Text → Option Text → Option Bool → World platform → Attempt ℕ
  import_bundle name requested bundle world =
      and_then (import_checks name requested bundle, world)
        λ (w, repository) world₁. and_then (up platform caller name world₁) λ started world₂.
          in_session name w false (local_remote_command local_script repository (text "import"))
            world₂

  abbrev ensure_from : Text → World platform → State → Outcome platform
  ensure_from name world not_built = up platform caller name world
  ensure_from name world stopped = up platform caller name world
  ensure_from name world starting = (ok tt, world)
  ensure_from name world running = (ok tt, world)
  ensure_from name world stopping = (err is_stopping, world)
  ensure_from name world failed = up platform caller name world

  unfoldable pub ensure_running : Text → Workspace → World platform → Outcome platform
  ensure_running name w world =
      and_then
        (state_for systemd (RunnerFiles.exists (files environment)) world.units name w, world)
        λ state world₁. ensure_from name world₁ state

  -- The directory that `shell` changes to: `/project` for root.
  abbrev shell_checkout : Workspace → Option Text → Bool → Result LifecycleError Text
  shell_checkout w requested true = ok (text "/project")
  shell_checkout w requested false = do
    entry ← with_context unconfigured (select_repository w requested)
    ok (checkout_path entry.1)

  abbrev is_requested : Option Text → Bool
  is_requested none = false
  is_requested (some key) = true

  abbrev shell_checks : Text → Option Text → Bool → Result LifecycleError (Workspace × Text)
  shell_checks name requested root = do
    w ← find_workspace name
    ensure (not root || not (is_requested requested)) root_with_repository
    checkout ← shell_checkout w requested root
    ok (w, checkout)

  unfoldable pub shell_command : Text → Text → Text
  shell_command name checkout =
      text "cd "
      ++ shell_quote checkout
      ++ (text " || { printf 'seter shell: registered checkout is missing; run seter init %s\\n' "
          ++ (shell_quote name ++ text " >&2; exit 72; }; exec \"${SHELL:-/bin/sh}\" -l"))

  unfoldable pub shell : Text → Option Text → Bool → World platform → Attempt ℕ
  shell name requested root world =
      and_then (shell_checks name requested root, world)
        λ (w, checkout) world₁.
          and_then (ensure_running name w world₁)
            λ running world₂. in_session name w true (shell_command name checkout) world₂

  abbrev run_checks :
      Text → Option Text → List Text → Result LifecycleError (Workspace × Repository)
  run_checks name requested arguments = do
    ensure (not (is_empty arguments)) no_command
    w ← find_workspace name
    entry ← with_context unconfigured (select_repository w requested)
    ok (w, entry.1)

  unfoldable pub run : Text → Option Text → List Text → World platform → Attempt ℕ
  run name requested arguments world =
      and_then (run_checks name requested arguments, world)
        λ (w, repository) world₁. and_then (ensure_running name w world₁) λ running world₂.
          in_session name w false (run_remote_command name (checkout_path repository) arguments)
            world₂

  -- `status`, without what it prints.
  abbrev is_running : State → Bool
  is_running not_built = false
  is_running stopped = false
  is_running starting = false
  is_running running = true
  is_running stopping = false
  is_running failed = false

  abbrev state_code : Bool → ℕ
  state_code true = 0
  state_code false = 3

  unfoldable pub status : Option Text → World platform → Result LifecycleError ℕ
  status (some name) world = do
    w ← find_workspace name
    state ← state_for systemd (RunnerFiles.exists (files environment)) world.units name w
    ok (state_code (is_running state))
  status none world = do
    registry ← context registry_failed (load environment)
    for_each (keys registry.workspaces) (λ name.
        query_unit systemd (RunnerFiles.exists (files environment)) world.units name >>= λ unit.
        ok tt)
    ok 0
