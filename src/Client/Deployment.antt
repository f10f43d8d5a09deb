-- ===== src/Client/Deployment.antt =====
-- The flake that `host deploy` of client.rs builds, and the words of the commands that it runs.
use seter.Prelude.{
  ℕ, ◌≡◌, Bool, true, false, not, ◌&&◌, Option, none, some, List, [], ◌∷◌, ◌++◌, any, is_empty, eqb,
  Result, arith, ok, ensure, context, ◌>>=◌, ◌>>◌, bind-eq-ok, seq-eq-ok, ensure-eq-ok,
  context-eq-ok, ok_inj, sym, if◌then◌else◌,
}
use seter.Prelude.Text.{Text, text, contains_char, strip_prefix}
use seter.Prelude.Text.Decimal.{decimal}
use seter.Shell.{shell_quote}
use seter.Client.Config.{ClientConfig}
use seter.Client.Host.{Paths, Endpoint}

pub data DeployError : Type 0 where
  separate_configuration cannot_resolve no_flake invalid_configuration : DeployError

module _ (paths : Paths) where
  abbrev from_path : Text → Option Text → Result DeployError Text
  from_path flake (some path) =
      context cannot_resolve (paths.canonicalize path) >>= λ resolved. ok (text "path:" ++ resolved)
  from_path flake none =
      if paths.exists flake then context cannot_resolve (paths.canonicalize flake) else ok flake

  unfoldable pub resolve_flake : Text → Result DeployError Text
  resolve_flake flake =
      ensure (not (contains_char b'#' flake)) separate_configuration
      >> from_path flake (strip_prefix (text "path:") flake)

  abbrev pub or_else : Option Text → Option Text → Option Text
  or_else (some flake) other = some flake
  or_else none other = other

  abbrev pub or_configured : Option Text → Text → Text
  or_configured (some configuration) other = configuration
  or_configured none other = other

  abbrev pub is_configuration : Text → Bool
  is_configuration configuration =
      not (is_empty configuration)
      && not (any (λ d. any (eqb d) (b'#' ∷ b'\n' ∷ b'\r' ∷ 0 ∷ [])) configuration)

  unfoldable pub deployment_flake :
      ClientConfig → Option Text → Option Text → Result DeployError Text
  deployment_flake config flake configuration = do
    chosen ← context no_flake (or_else flake config.flake)
    resolved ← resolve_flake chosen
    ensure (is_configuration (or_configured configuration config.configuration))
        invalid_configuration
    ok (resolved ++ (b'#' ∷ or_configured configuration config.configuration))

  -- What is deployed is the resolved flake, `#` and a configuration name that has no `#` and is not empty.
  pub deployment_flake_lem :
      (config : ClientConfig) (flake configuration : Option Text) (s : Text)
      → deployment_flake config flake configuration ≡ ok s
      → (chosen resolved : Text) × (or_else flake config.flake ≡ some chosen)
        × (contains_char b'#' chosen ≡ false)
        × (resolve_flake chosen ≡ ok resolved)
        × (is_configuration (or_configured configuration config.configuration) ≡ true)
        × (s ≡ resolved ++ (b'#' ∷ or_configured configuration config.configuration))
  unfolding deployment_flake resolve_flake
  deployment_flake_lem config flake configuration s h =
      let (chosen, given, h₁) = bind-eq-ok _ _ h in
      let (resolved, resolves, h₂) = bind-eq-ok _ _ h₁ in
      let (valid, e) = seq-eq-ok _ _ h₂ in
      let (plain, rest) = seq-eq-ok _ _ resolves in
      (
        chosen,
        resolved,
        context-eq-ok _ _ given,
        not-false (contains_char b'#' chosen) (ensure-eq-ok _ _ plain),
        resolves,
        ensure-eq-ok _ _ valid,
        sym (ok_inj e),
      )
    where
      not-false : (b : Bool) → not b ≡ true → b ≡ false
      not-false b h = ground arith

abbrev jobs_option : Option ℕ → List Text
jobs_option none = []
jobs_option (some jobs) = text "--option" ∷ text "max-jobs" ∷ decimal jobs ∷ []

abbrev cores_option : Option ℕ → List Text
cores_option none = []
cores_option (some cores) = text "--option" ∷ text "cores" ∷ decimal cores ∷ []

-- `build_limits`, as the words that it adds.
unfoldable pub build_limits : Option ℕ → Option ℕ → List Text
build_limits max_jobs cores = jobs_option max_jobs ++ cores_option cores

-- The words behind nixos-rebuild, for a Lima Host, and `NIX_SSHOPTS`.
unfoldable pub deploy_arguments : Text → Endpoint → Option ℕ → Option ℕ → List Text
deploy_arguments flake endpoint max_jobs cores =
    (text "--no-reexec"
      ∷ text "switch"
      ∷ text "--flake"
      ∷ flake
      ∷ text "--build-host"
      ∷ endpoint.destination
      ∷ text "--target-host"
      ∷ endpoint.destination
      ∷ text "--elevate"
      ∷ text "sudo"
      ∷ [])
    ++ build_limits max_jobs cores

unfoldable pub ssh_options : Endpoint → Text → Text
ssh_options endpoint previous =
    text "-F "
    ++ (shell_quote endpoint.ssh_config
        ++ (text " -o ControlMaster=no -o ControlPath=none -o ForwardAgent=no " ++ previous))

-- The words behind sudo, on a Linux host.
unfoldable pub local_deploy_arguments : Text → Option ℕ → Option ℕ → List Text
local_deploy_arguments flake max_jobs cores =
    (text "--" ∷ text "nixos-rebuild" ∷ text "switch" ∷ text "--flake" ∷ flake ∷ [])
    ++ build_limits max_jobs cores
