-- ===== src/Policy/Replace.antt =====
-- `policy::atomic_write`: a new file beside the Policy File takes its place. A file is its contents and its
-- mode; what the system answers to each call, and the paths' parents and names, are parameters.
pub mod Atomic
use seter.Prelude.{
  ℕ, Bool, true, false, Option, none, some, List, [], ◌∷◌, ◌++◌, is_empty, ◌||◌, Result, ok, err,
  context, ◌>>=◌, ensure, not, and_then, if◌then◌else◌,
}
use seter.Prelude.Eq.{◌==◌, nat_eq, list_eq}
use seter.Prelude.Text.{Text, text, ends_with}
use seter.Prelude.Text.Decimal.{decimal}

pub record Node : Type 0 where
  pub contents : Text
  pub mode : ℕ

abbrev pub Files : Type 0
Files = Text → Option Node

-- `write_stops` is what a write that fails has written; `masked` is the mode that a file is created with.
pub record Disk : Type 0 where
  pub parent : Text → Option Text
  pub file_name : Text → Option Text
  pub pid : ℕ
  pub masked : ℕ → ℕ
  pub cannot_stat : Text → Bool
  pub cannot_create : Text → Bool
  pub write_stops : Option Text
  pub cannot_sync : Text → Bool
  pub cannot_set_mode : Text → Bool
  pub cannot_rename : Text → Bool
  pub cannot_open_directory : Text → Bool
  pub cannot_remove : Text → Bool

pub data WriteError : Type 0 where
  no_file_name no_metadata exists_already not_created not_written not_synced mode_not_set
        not_replaced no_directory :
      WriteError

abbrev pub Outcome : Type 0 → Type 0
Outcome A = Result WriteError A × Files

abbrev pub set_file : Text → Option Node → Files → Files
set_file path node files = λ other. if other == path then node else files other

-- `Path::join`, with a relative path.
abbrev pub join : Text → Text → Text
join base relative =
    if is_empty base || ends_with (text "/") base
    then base ++ relative
    else base ++ (b'/' ∷ relative)

module _ (disk : Disk) where
  open disk use {
    parent, file_name, pid, masked, cannot_stat, cannot_create, write_stops, cannot_sync,
    cannot_set_mode, cannot_rename, cannot_open_directory, cannot_remove,
  }

  abbrev parent_or : Option Text → Text
  parent_or none = text "."
  parent_or (some directory) = directory

  abbrev pub directory_of : Text → Text
  directory_of path = parent_or (parent path)

  abbrev pub temporary_in : Text → Text → Text
  temporary_in directory name =
      join directory (b'.' ∷ name ++ (text ".seter-" ++ (decimal pid ++ text ".tmp")))

  -- `fs::metadata(path)?.permissions().mode()`
  abbrev pub mode_of : Text → Option Node → Result WriteError ℕ
  mode_of path none = err no_metadata
  mode_of path (some node) = if cannot_stat path then err no_metadata else ok node.mode

  abbrev pub check : Bool → WriteError → Files → Outcome (Unit {0})
  check failed e files = if failed then (err e, files) else (ok tt, files)

  -- `create_new(true)`
  abbrev pub create_as : Option Node → Text → ℕ → Files → Outcome (Unit {0})
  create_as (some node) path mode files = (err exists_already, files)
  create_as none path mode files =
      if cannot_create path
      then (err not_created, files)
      else (ok tt, set_file path (some record { contents = []; mode = masked mode }) files)

  unfoldable pub create_new : Text → ℕ → Files → Outcome (Unit {0})
  create_new path mode files = create_as (files path) path mode files

  abbrev pub with_contents : Text → Option Node → Option Node
  with_contents contents none = none
  with_contents contents (some node) = some (record node { contents = contents })

  abbrev pub with_mode : ℕ → Option Node → Option Node
  with_mode mode none = none
  with_mode mode (some node) = some (record node { mode = mode })

  abbrev pub write_until : Option Text → Text → Text → Files → Outcome (Unit {0})
  write_until none path contents files =
      (ok tt, set_file path (with_contents contents (files path)) files)
  write_until (some part) path contents files =
      (err not_written, set_file path (with_contents part (files path)) files)

  -- `write_all`, `set_permissions` and `rename`.
  unfoldable pub write_all : Text → Text → Files → Outcome (Unit {0})
  write_all path contents files = write_until write_stops path contents files

  unfoldable pub set_permissions : Text → ℕ → Files → Outcome (Unit {0})
  set_permissions path mode files =
      if cannot_set_mode path
      then (err mode_not_set, files)
      else (ok tt, set_file path (with_mode mode (files path)) files)

  unfoldable pub rename : Text → Text → Files → Outcome (Unit {0})
  rename from to files =
      if cannot_rename to
      then (err not_replaced, files)
      else (ok tt, set_file from none (set_file to (files from) files))

  -- The closure that fills the new file and moves it.
  unfoldable pub fill : Text → Text → Text → ℕ → Text → Files → Outcome (Unit {0})
  fill temporary path directory mode contents files =
      and_then (write_all temporary contents files) λ filled files₁.
        and_then (check (cannot_sync temporary) not_synced files₁) λ synced files₂.
          and_then (set_permissions temporary mode files₂) λ set files₃.
            and_then (rename temporary path files₃) λ moved files₄.
              and_then (check (cannot_open_directory directory) no_directory files₄)
                λ opened files₅. check (cannot_sync directory) not_synced files₅

  -- `let _ = fs::remove_file(&temporary)`
  unfoldable pub discard : Text → Files → Files
  discard path files = if cannot_remove path then files else set_file path none files

  abbrev pub clean_up : Text → Outcome (Unit {0}) → Outcome (Unit {0})
  clean_up temporary (ok done, files) = (ok done, files)
  clean_up temporary (err e, files) = (err e, discard temporary files)

  abbrev write_named : Text → Text → Option Text → Files → Outcome (Unit {0})
  write_named path contents none files = (err no_file_name, files)
  write_named path contents (some name) files =
      let directory = directory_of path in
      let temporary = temporary_in directory name in
      and_then (mode_of path (files path), files)
        λ mode files₁.
          and_then (create_new temporary mode files₁) λ created files₂.
            clean_up temporary (fill temporary path directory mode contents files₂)

  unfoldable pub atomic_write : Text → Text → Files → Outcome (Unit {0})
  atomic_write path contents files = write_named path contents (file_name path) files
