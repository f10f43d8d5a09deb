-- ===== src/Lifecycle/Storage.antt =====
-- `reset_workspace` and `destroy_project_volume`, as changes of the set of volume images. A path is
-- the directory that it leads to and a file name. The parameters say what the system
-- answers: whether a directory can be created, a lock is held elsewhere, a removal fails other than
-- for a missing file.
pub mod Preserved
use seter.Prelude.{
  Bool, true, false, not, ◌&&◌, ◌||◌, Option, none, some, List, [], ◌∷◌, ◌++◌, Result, ok, err,
  ensure, with_context, ◌>>=◌, ◌>>◌, and_then, if◌then◌else◌,
}
use seter.Prelude.Eq.{◌==◌, nat_eq, list_eq}
use seter.Prelude.Text.{Text, text}
use seter.Registry.{Registry, Workspace}
use seter.Registry.Select.{workspace}
use seter.Lifecycle.{
  State, stopped, LifecycleError, unconfigured, no_selection, must_be_stopped, busy, open_failed,
  remove_failed, Systemd, state_for,
}

abbrev pub is_stopped : State → Bool
is_stopped State.not_built = false
is_stopped State.stopped = true
is_stopped State.starting = false
is_stopped State.running = false
is_stopped State.stopping = false
is_stopped State.failed = false

-- The images that exist, by directory and file name.
abbrev pub Images : Type 0
Images = Text → Text → Bool

abbrev pub without : Text → Text → Images → Images
without directory file images d f = not (d == directory && f == file) && images d f

-- What the file system and the lock files answer. `directory` is the directory that the path of a workspace's state,
-- the state root joined with its name, leads to: two names may lead to one directory, as "a" and "./a" do.
pub record FileSystem : Type 0 where
  pub directory : Text → Text
  pub cannot_create : Text → Bool
  pub is_locked : Text → Bool
  pub cannot_remove : Text → Text → Bool

pub data RemoveError : Type 0 where
  not_found other_failure : RemoveError

module _ (fs : FileSystem) where
  -- `fs::remove_file`
  unfoldable pub remove_file : Text → Text → Images → Result RemoveError (Unit {0}) × Images
  remove_file directory file images =
      if not (images directory file)
      then (err not_found, images)
      else if fs.cannot_remove directory file
      then (err other_failure, images)
      else (ok tt, without directory file images)

  -- The `match` on the result in the loop of `reset_workspace`.
  abbrev pub removed_or_absent :
      Text → Text → List Text → Result RemoveError (Unit {0}) → Result LifecycleError (List Text)
  removed_or_absent file label removed (ok tt) = ok (removed ++ label ∷ [])
  removed_or_absent file label removed (err not_found) = ok removed
  removed_or_absent file label removed (err other_failure) = err (remove_failed file)

  -- The loop over the selected images; it gives the labels of the removed ones.
  unfoldable pub remove_selected :
      Text
      → List (Bool × Text × Text)
      → List Text
      → Images
      → Result LifecycleError (List Text) × Images
  remove_selected name [] removed images = (ok removed, images)
  remove_selected name ((false, label, image) ∷ rest) removed images =
      remove_selected name rest removed images
  remove_selected name ((true, label, image) ∷ rest) removed images =
      let (result, images') = remove_file name image images in
      and_then (removed_or_absent image label removed result, images')
        λ removed' images''. remove_selected name rest removed' images''

  module _ (systemd : Systemd) (exists : Text → Bool) where
    open systemd use {Units}

    abbrev pub check_stopped : Units → Text → Workspace → Result LifecycleError (Unit {0})
    check_stopped units name w = do
      state ← state_for systemd exists units name w
      ensure (is_stopped state) must_be_stopped

    -- The checks of `reset_workspace`: `units` is systemd's state at the start and `locked_units` its
    -- state when the lock is held; another process may have changed it in between.
    unfoldable pub reset_checks :
        Registry → Text → Bool → Bool → Units → Units → Result LifecycleError Workspace
    reset_checks registry name home nix_store units locked_units = do
      ensure (home || nix_store) no_selection
      w ← with_context unconfigured (workspace registry name)
      check_stopped units name w
      ensure (not (fs.cannot_create name)) (open_failed name)
      ensure (not (fs.is_locked name)) busy
      check_stopped locked_units name w
      ok w

    abbrev pub reset_checked :
        Text
        → Bool
        → Bool
        → Images
        → Result LifecycleError Workspace
        → Result LifecycleError (List Text) × Images
    reset_checked name home nix_store images (err e) = (err e, images)
    reset_checked name home nix_store images (ok w) =
        remove_selected (fs.directory name)
          ((home, text "Home", w.storage.home.image)
            ∷ (nix_store, text "private Nix store", w.storage.nix_store.image)
            ∷ [])
          [] images

    unfoldable pub reset_workspace :
        Registry
        → Text
        → Bool
        → Bool
        → Units
        → Units
        → Images
        → Result LifecycleError (List Text) × Images
    reset_workspace registry name home nix_store units locked_units images =
        reset_checked name home nix_store images
          (reset_checks registry name home nix_store units locked_units)

    unfoldable pub destroy_checks : Registry → Text → Units → Result LifecycleError Workspace
    destroy_checks registry name locked_units = do
      w ← with_context unconfigured (workspace registry name)
      ensure (not (fs.is_locked name)) busy
      check_stopped locked_units name w
      ok w

    abbrev pub destroy_checked :
        Text → Images → Result LifecycleError Workspace → Result LifecycleError (Unit {0}) × Images
    destroy_checked name images (err e) = (err e, images)
    destroy_checked name images (ok w) =
        let (result, images') = remove_file (fs.directory name) w.storage.project.image images in
        (with_context (λ e. remove_failed w.storage.project.image) result, images')

    unfoldable pub destroy_project_volume :
        Registry → Text → Units → Images → Result LifecycleError (Unit {0}) × Images
    destroy_project_volume registry name locked_units images =
        destroy_checked name images (destroy_checks registry name locked_units)
