-- ===== src/Registry/Errors.antt =====
-- The failures of registry validation and selection, one constructor for each message.
use seter.Prelude.{ℕ, List}
use seter.Prelude.Text.{Text}
use seter.HostPatterns.{HostError}

pub data UrlError : Type 0 where
  not_https no_path ambiguous_path encoded_path bad_port : UrlError
  bad_host : HostError → UrlError

pub data RepositoryError : Type 0 where
  invalid_name duplicate_checkout local_with_remote missing_url invalid_checkout : RepositoryError
  empty_branch empty_credential invalid_placeholder : RepositoryError
  invalid_url : UrlError → RepositoryError

pub data RegistryError : Type 0 where
  unsupported_version : ℕ → RegistryError
  not_configured : Text → RegistryError
  invalid_guest_profile no_repositories unknown_default : Text → RegistryError
  bad_repository : Text → Text → RepositoryError → RegistryError
  relative_runner identity_version identity_name identity_hostname identity_network :
      Text → RegistryError
  invalid_prefix identity_user identity_profile identity_ports invalid_ports : Text → RegistryError
  identity_memory identity_vcpu identity_storage invalid_proxy : Text → RegistryError
  zero_memory zero_vcpu zero_quota empty_user : Text → RegistryError
  invalid_image zero_volume reused_image : Text → Text → RegistryError
  reused_address reused_mac reused_tap reused_hostname : Text → RegistryError
  unknown_repository : Text → List Text → RegistryError
  ambiguous_repository : List Text → RegistryError
