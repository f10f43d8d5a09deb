-- ===== src/Registry/Select.antt =====
-- `Registry::workspace` and `Workspace::select_repository`.
use seter.Prelude.{Option, none, some, [], ◌∷◌, Result, ok, err, context, ◌>>=◌}
use seter.Prelude.Text.{Text}
use seter.Prelude.Map.{Map, get, keys}
use seter.Registry.{Registry, Workspace, Repository}
use seter.Registry.Errors.{RegistryError, not_configured, unknown_repository, ambiguous_repository}

unfoldable pub workspace : Registry → Text → Result RegistryError Workspace
workspace r name = context (not_configured name) (get name r.workspaces)

-- `requested.or(default)`
abbrev pub or_default : Option Text → Option Text → Option Text
or_default none default = default
or_default (some name) default = some name

abbrev pub sole : Map Repository → Result RegistryError (Text × Repository)
sole (entry ∷ []) = ok entry
sole repositories = err (ambiguous_repository (keys repositories))

abbrev pub select : Map Repository → Option Text → Result RegistryError (Text × Repository)
select repositories none = sole repositories
select repositories (some name) = do
  found ← context (unknown_repository name (keys repositories)) (get name repositories)
  ok (name, found)

unfoldable pub select_repository :
    Workspace → Option Text → Result RegistryError (Text × Repository)
select_repository w requested = select w.repositories (or_default requested w.default_repository)
