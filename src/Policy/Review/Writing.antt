-- ===== src/Policy/Review/Writing.antt =====
-- The whole of `policy::review`, over the files: the lock, the reading, the questions, the rendering, the
-- diff and the replacement. The registry, the lock's holder, the observations and toml are parameters.
use seter.Prelude.{
  Bool, true, false, not, ◌&&◌, Option, none, some, List, [], ◌∷◌, ◌++◌, Result, ok, err, ensure,
  context, with_context, ◌>>=◌, ◌>>◌, and_then, eqb, if◌then◌else◌,
}
use seter.Prelude.Eq.{◌==◌, nat_eq, list_eq}
use seter.Prelude.Text.{Text, text}
use seter.Prelude.Map.{Map}
use seter.Registry.{Registry}
use seter.Registry.Errors.{RegistryError}
use seter.Registry.Select.{workspace}
use seter.Policy.{egress_eq, WorkspacePolicy, PolicyFile}
use seter.Policy.Normalize.{normalize}
use seter.Policy.Validate.{PolicyError, validate, load}
use seter.Policy.Grants.{egress_of}
use seter.Policy.Render.{TomlEdit, RenderError, render_workspace_preserving}
use seter.Policy.Replace.{Node, Files, Disk, WriteError, set_file, atomic_write}
use seter.Audit.{AuditGroup, AuditError}
use seter.Policy.Review.{ReviewError, prompt, review}

pub data RunError : Type 0 where
  no_registry unconfigured : RegistryError → RunError
  lock_not_opened already_reviewed cannot_read invalid_toml invalid_edit : RunError
  invalid_file invalid_rendering : PolicyError → RunError
  no_observations : AuditError → RunError
  refused : ReviewError → RunError
  not_rendered : RenderError → RunError
  not_replaced : WriteError → RunError

-- What ends a review without an error.
pub data Ending : Type 0 where
  no_changes unchanged updated : Ending

-- `derive(PartialEq)`
abbrev pub entries_beq : Map WorkspacePolicy → Map WorkspacePolicy → Bool
entries_beq [] [] = true
entries_beq [] (e ∷ m) = false
entries_beq (e ∷ m) [] = false
entries_beq ((j, v) ∷ m) ((k, w) ∷ n) = j == k && (v.egress == w.egress && entries_beq m n)

abbrev pub policy_beq : PolicyFile → PolicyFile → Bool
policy_beq p q = eqb p.version q.version && entries_beq p.workspaces q.workspaces

-- What the run finds: the public suffix rules, the registry, whether the lock file can be opened and is
-- held elsewhere, whether the Policy File can be read, and the observations.
pub record Setting : Type 1 where
  pub toml : TomlEdit
  pub disk : Disk
  pub rules : List Text
  pub registry : Result RegistryError Registry
  pub cannot_open : Text → Bool
  pub is_locked : Text → Bool
  pub cannot_read : Text → Bool
  pub observations : Result AuditError (List AuditGroup)

module _ (setting : Setting) where
  open setting use {toml, disk, rules, cannot_open, is_locked}

  abbrev pub lock_path : Text → Text
  lock_path file = file ++ text ".lock"

  -- `OpenOptions::new().create(true).mode(0o600)`; the lock file stays.
  abbrev pub with_lock : Option Node → Text → Files → Files
  with_lock (some node) path files = files
  with_lock none path files =
      set_file path (some record { contents = []; mode = disk.masked 384 }) files

  unfoldable pub lock : Text → Files → Result RunError (Unit {0}) × Files
  lock path files =
      if cannot_open path
      then (err lock_not_opened, files)
      else (ensure (not (is_locked path)) already_reviewed, with_lock (files path) path files)

  abbrev pub contents_of : Text → Option Node → Result RunError Text
  contents_of path none = err cannot_read
  contents_of path (some node) =
      if setting.cannot_read path then err cannot_read else ok node.contents

  unfoldable pub read_file : Text → Files → Result RunError Text
  read_file path files = contents_of path (files path)

  -- The diff and the last question.
  abbrev pub rendering_asked :
      Text → Text → List (Option Text) → Result RunError (Ending × Option Text)
  rendering_asked original rendered answers =
      if rendered == original
      then ok (no_changes, none)
      else (with_context refused (prompt answers) >>= λ asked.
          ok (if asked.0 == text "y" then (updated, some rendered) else (unchanged, none)))

  unfoldable pub render_proposed :
      Registry
      → Text
      → Text
      → PolicyFile
      → List (Option Text)
      → Result RunError (Ending × Option Text)
  render_proposed registry name original proposed answers = do
    rendered ←
        with_context not_rendered
          (render_workspace_preserving toml original name (egress_of proposed name))
    parsed ← context invalid_edit (toml.read_policy rendered)
    with_context invalid_rendering (validate rules registry (normalize parsed))
    rendering_asked original rendered answers

  -- From the reading of the Policy File to the last question: the text to write, if any. `PolicyFile::load`
  -- reads the same file again, which the lock keeps other reviews from.
  unfoldable pub choose :
      Registry → Text → Text → List (Option Text) → Result RunError (Ending × Option Text)
  choose registry name original answers = do
    parsed ← context invalid_toml (toml.read_policy original)
    initial ← with_context invalid_file (load rules registry parsed)
    observations ← with_context no_observations setting.observations
    (proposed, rest) ←
        with_context refused (review rules registry name initial observations answers)
    if policy_beq proposed initial
        then ok (no_changes, none)
        else render_proposed registry name original proposed rest

  abbrev pub written :
      Result WriteError (Unit {0}) × Files → Ending → Result RunError Ending × Files
  written (result, files) ending = ((with_context not_replaced result >> ok ending), files)

  abbrev pub write_chosen : Text → Ending × Option Text → Files → Result RunError Ending × Files
  write_chosen file (ending, none) files = (ok ending, files)
  write_chosen file (ending, some rendered) files =
      written (atomic_write disk file rendered files) ending

  abbrev pub chosen :
      Registry → Text → Text → List (Option Text) → Files → Result RunError (Ending × Option Text)
  chosen registry name file answers files = do
    original ← read_file file files
    choose registry name original answers

  unfoldable pub review_file :
      Text → Text → List (Option Text) → Files → Result RunError Ending × Files
  review_file name file answers files =
      and_then (with_context no_registry setting.registry, files)
        λ registry files₁.
          and_then (with_context unconfigured (workspace registry name), files₁)
            λ configured files₂. and_then (lock (lock_path file) files₂) λ locked files₃.
              and_then (chosen registry name file answers files₃, files₃)
                λ choice files₄. write_chosen file choice files₄
