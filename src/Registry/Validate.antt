-- ===== src/Registry/Validate.antt =====
-- `Registry::validate`, with the four sets of the outer loop and the sets of the inner ones as state.
pub mod Unique
pub mod Volumes
use seter.Prelude.{
  ℕ, ◌≡◌, Bool, true, false, not, ◌&&◌, ◌||◌, Option, none, some, List, [], ◌∷◌, all, any, contains,
  is_empty, eqb, leb, ltb, length, Result, ok, err, ensure, context, with_context, try_fold,
  for_each, ◌>>=◌, ◌>>◌, no_repeats, map,
}
use seter.Prelude.Eq.{◌==◌, nat_eq, list_eq, Eq}
use seter.Prelude.Text.{Text, text, byte_len, strip_prefix, starts_with, contains_char, trim}
use seter.Prelude.Text.Ascii.{to_ascii_lowercase, is_ascii_alphanumeric, eq_ignore_ascii_case}
use seter.Prelude.Ipv4.{Ipv4Addr, address_eq}
use seter.Prelude.Map.{Map, contains_key, values}
use seter.Registry.{
  Registry, Workspace, Repository, RepositoryCredential, RunnerIdentity, Volume, Storage,
  storage_eq,
}
use seter.Registry.Errors.{
  RegistryError, RepositoryError, invalid_name, duplicate_checkout, local_with_remote, missing_url,
  invalid_checkout, empty_branch, empty_credential, invalid_placeholder, invalid_url,
  unsupported_version, invalid_guest_profile, no_repositories, unknown_default, bad_repository,
  relative_runner, identity_version, identity_name, identity_hostname, identity_network,
  invalid_prefix, identity_user, identity_profile, identity_ports, invalid_ports, identity_memory,
  identity_vcpu, identity_storage, invalid_proxy, zero_memory, zero_vcpu, zero_quota, empty_user,
  invalid_image, zero_volume, reused_image, reused_address, reused_mac, reused_tap, reused_hostname,
}
use seter.Registry.Url.{validate_repository_url, valid_component_name, unwrap_or}

abbrev pub registry_version : ℕ
registry_version = 8

abbrev pub runner_identity_version : ℕ
runner_identity_version = 3

abbrev pub is_none {ℓ} : {A : Type ℓ} → Option A → Bool
is_none none = true
is_none (some a) = false

-- `ensure!(set.insert(x), e)`
unfoldable pub insert_unique : {A E : Type 0} ⦃e : Eq A⦄ → List A → A → E → Result E (List A)
insert_unique set x error = do ensure (not (contains set x)) error; ok (x ∷ set)

-- What follows a literal prefix, and whether anything does.
abbrev pub after : Text → Text → Text
after prefix s = unwrap_or [] (strip_prefix prefix s)

abbrev pub placeholder_char : ℕ → Bool
placeholder_char c = is_ascii_alphanumeric c || (eqb c b'_' || eqb c b'-')

abbrev pub validate_source : Repository → Result RepositoryError (Unit {0})
validate_source r = elim r.local [
  | true ↦ ensure (is_none r.url && is_none r.credential) local_with_remote
  | false ↦ do
    url ← context missing_url r.url
    with_context invalid_url (validate_repository_url url)
]

abbrev pub validate_branch : Option Text → Result RepositoryError (Unit {0})
validate_branch none = ok tt
validate_branch (some branch) = ensure (not (is_empty (trim branch))) empty_branch

abbrev pub validate_credential : Option RepositoryCredential → Result RepositoryError (Unit {0})
validate_credential none = ok tt
validate_credential (some c) = do
  ensure (not (is_empty (trim c.name))) empty_credential
  ensure
      (starts_with (text "seter-placeholder-") c.placeholder
        && leb 16 (byte_len (after (text "seter-placeholder-") c.placeholder))
        && all placeholder_char (after (text "seter-placeholder-") c.placeholder))
      invalid_placeholder

-- One round of the loop over repositories; the state is the set of checkout names.
unfoldable pub validate_repository :
    List Text → Text × Repository → Result RepositoryError (List Text)
validate_repository checkouts (name, r) = do
  ensure (valid_component_name name) invalid_name
  checkouts' ← insert_unique checkouts r.checkout_name duplicate_checkout
  validate_source r
  ensure (valid_component_name r.checkout_name) invalid_checkout
  validate_branch r.branch
  validate_credential r.credential
  ok checkouts'

abbrev pub validate_default : Text → Map Repository → Option Text → Result RegistryError (Unit {0})
validate_default name repositories none = ok tt
validate_default name repositories (some key) =
    ensure (contains_key key repositories) (unknown_default name)

unfoldable pub validate_repositories : Text → Workspace → Result RegistryError (Unit {0})
validate_repositories name w = do
  ensure (valid_component_name w.guest_profile) (invalid_guest_profile name)
  ensure (not (is_empty w.repositories)) (no_repositories name)
  validate_default name w.repositories w.default_repository
  checkouts ←
      try_fold
        (λ checkouts entry.
          with_context (bad_repository name entry.0) (validate_repository checkouts entry))
        [] w.repositories
  ok tt

unfoldable pub validate_identity : Text → Workspace → Result RegistryError (Unit {0})
validate_identity name w = do
  let identity = w.runner.identity
  ensure (starts_with (text "/") w.runner.path) (relative_runner name)
  ensure (eqb identity.version runner_identity_version) (identity_version name)
  ensure (identity.workspace == name) (identity_name name)
  ensure (eq_ignore_ascii_case identity.hostname w.hostname) (identity_hostname name)
  ensure
      (identity.network.address == w.network.address
        && eq_ignore_ascii_case identity.network.mac w.network.mac
        && identity.network.tap == w.network.tap)
      (identity_network name)
  ensure (leb identity.network.prefix_length 32) (invalid_prefix name)
  ensure (identity.ssh_user == w.ssh_user) (identity_user name)
  ensure (identity.guest_profile == w.guest_profile) (identity_profile name)
  ensure (identity.development_ports == w.development_ports) (identity_ports name)
  ensure (all (leb 1024) w.development_ports && no_repeats [] w.development_ports)
      (invalid_ports name)
  ensure (eqb identity.resources.memory_mi_b w.resources.memory_mi_b) (identity_memory name)
  ensure (eqb identity.resources.vcpu w.resources.vcpu) (identity_vcpu name)
  ensure (identity.storage == w.storage) (identity_storage name)
  ensure
      (starts_with (text "http://") identity.proxy_url
        && not (is_empty (after (text "http://") identity.proxy_url)))
      (invalid_proxy name)

-- One round of the loop over volumes; the state is the set of image names.
unfoldable pub validate_volume : Text → List Text → Text × Volume → Result RegistryError (List Text)
validate_volume name images (label, v) = do
  ensure
      (not (is_empty (trim v.image))
        && not (contains_char b'/' v.image)
        && not (v.image == text ".")
        && not (v.image == text ".."))
      (invalid_image name label)
  ensure (ltb 0 v.size_mi_b) (zero_volume name label)
  insert_unique images v.image (reused_image name v.image)

unfoldable pub validate_limits : Text → Workspace → Result RegistryError (Unit {0})
validate_limits name w = do
  ensure (ltb 0 w.resources.memory_mi_b) (zero_memory name)
  ensure (ltb 0 w.resources.vcpu) (zero_vcpu name)
  ensure (ltb 0 w.resources.cpu_quota_percent) (zero_quota name)
  ensure (not (is_empty (trim w.ssh_user))) (empty_user name)

abbrev pub volumes : Storage → List (Text × Volume)
volumes s =
    (text "Project", s.project) ∷ (text "Home", s.home) ∷ (text "Nix store", s.nix_store) ∷ []

unfoldable pub validate_storage : Text → Workspace → Result RegistryError (Unit {0})
validate_storage name w = do images ← try_fold (validate_volume name) [] (volumes w.storage); ok tt

pub record Seen : Type 0 where
  pub addresses : List Ipv4Addr
  pub macs : List Text
  pub taps : List Text
  pub hostnames : List Text

abbrev pub unseen : Seen
unseen = record { addresses = []; macs = []; taps = []; hostnames = [] }

unfoldable pub validate_unique : Seen → Text → Workspace → Result RegistryError Seen
validate_unique seen name w = do
  addresses ← insert_unique seen.addresses w.network.address (reused_address name)
  macs ← insert_unique seen.macs (to_ascii_lowercase w.network.mac) (reused_mac name)
  taps ← insert_unique seen.taps w.network.tap (reused_tap name)
  hostnames ← insert_unique seen.hostnames (to_ascii_lowercase w.hostname) (reused_hostname name)
  ok (record { addresses = addresses; macs = macs; taps = taps; hostnames = hostnames })

-- One round of the loop over workspaces.
unfoldable pub validate_workspace : Seen → Text × Workspace → Result RegistryError Seen
validate_workspace seen (name, w) = do
  validate_repositories name w
  validate_identity name w
  validate_limits name w
  validate_storage name w
  validate_unique seen name w

unfoldable pub validate : Registry → Result RegistryError (Unit {0})
validate r = do
  ensure (eqb r.version registry_version) (unsupported_version r.version)
  seen ← try_fold validate_workspace unseen r.workspaces
  ok tt
