-- ===== src/Tests/Registries.antt =====
-- Registries, repository URLs and selection.
use seter.Prelude.{
  ◌≡◌, refl, false, none, some, [], ◌∷◌, All, ok, err, ensure, context, with_context, for_each,
  try_fold, ◌>>=◌,
}
use seter.Prelude.Loops.{Distinct}
use seter.Prelude.Text.{Text, text}
use seter.Prelude.Text.Ascii.{lower}
use seter.Prelude.Ipv4.{Ipv4Addr, parse_ipv4}
use seter.Prelude.Map.{get, contains_key}
use seter.HostPatterns.{validate_exact_host, valid_label}
use seter.Registry.{Registry, Workspace, Repository, Storage, RunnerIdentity}
use seter.Registry.Errors.{encoded_path, not_https}
use seter.Registry.Url.{host, validate_repository_url, validate_parts, valid_component_name}
use seter.Registry.Url.Hosts.{IsExactUrl, validate_repository_url-host}
use seter.Registry.Validate.{
  insert_unique, validate_repository, validate_repositories, validate_identity, validate_volume,
  validate_limits, validate_storage, validate_unique, validate_workspace, validate,
}
use seter.Registry.Validate.Unique.{address, mac, tap, hostname, validate-Distinct}
use seter.Registry.Validate.Volumes.{HasSoundRepositories, HasSoundStorage, validate-HasSound}

abbrev project : Repository
project = record {
  local = false;
  url = some (text "https://Git.example:443/owner/project.git");
  branch = none;
  checkout_name = text "project";
  credential =
      some
        (record { name = text "token"; placeholder = text "seter-placeholder-0123456789abcdef" });
}

abbrev storage : Storage
storage = record {
  project = record { image = text "minimal-project.img"; size_mi_b = 4096 };
  home = record { image = text "minimal-home.img"; size_mi_b = 4096 };
  nix_store = record { image = text "minimal-nix-store.img"; size_mi_b = 16384 };
}

abbrev guest : Ipv4Addr
guest = record { a = 10; b = 100; c = 0; d = 10 }

abbrev gateway : Ipv4Addr
gateway = record { a = 10; b = 100; c = 0; d = 1 }

abbrev pub identity : RunnerIdentity
identity = record {
  version = 3;
  workspace = text "minimal";
  hostname = text "minimal.vm";
  network = record {
    address = guest;
    mac = text "02:00:00:00:00:aa";
    tap = text "seter-minimal";
    gateway = gateway;
    prefix_length = 24;
  };
  proxy_url = text "http://10.100.0.1:18081";
  ssh_user = text "seter";
  guest_profile = text "default";
  development_ports = 3000 ∷ [];
  resources = record { memory_mi_b = 4096; vcpu = 2 };
  storage = storage;
}

abbrev pub minimal : Workspace
minimal = record {
  hostname = text "minimal.vm";
  guest_profile = text "default";
  development_ports = 3000 ∷ [];
  repositories = (text "project", project) ∷ [];
  default_repository = none;
  runner = record { path = text "/nix/store/test-runner"; identity = identity };
  network = record { address = guest; mac = text "02:00:00:00:00:AA"; tap = text "seter-minimal" };
  resources = record { memory_mi_b = 4096; vcpu = 2; cpu_quota_percent = 200 };
  ssh_user = text "seter";
  storage = storage;
}

abbrev pub registry : Registry
registry = record { version = 8; workspaces = (text "minimal", minimal) ∷ [] }

run_urls : Unit {0}
unfolding validate_repository_url validate_parts validate_exact_host valid_label parse_ipv4 ensure
    context with_context for_each try_fold ◌>>=◌ lower host
run_urls = tt

run_registry : Unit {0}
unfolding run_urls validate validate_workspace validate_unique validate_storage validate_volume
    validate_limits validate_identity validate_repositories validate_repository insert_unique
    valid_component_name get contains_key
run_registry = tt

pub registry_valid : validate registry ≡ ok tt
unfolding run_registry
registry_valid = refl

abbrev project_url : Text
project_url = text "https://Git.example:443/owner/project.git"

url_tests :
    (validate_repository_url project_url ≡ ok tt)
    × (validate_repository_url (text "ssh://git.example/project") ≡ err not_https)
    × (validate_repository_url (text "https://git.example/owner/../other.git") ≡ err encoded_path)
    × (validate_repository_url (text "https://git.example/owner/p.git%2F..") ≡ err encoded_path)
    × (host project ≡ some (text "git.example"))
unfolding run_urls
url_tests = (refl, refl, refl, refl, refl)

validate_repository_url-host_example :
    (h : Text) × (host project ≡ some h) × IsExactUrl project_url h
validate_repository_url-host_example =
    validate_repository_url-host project project_url refl url_tests.0

validate-Distinct_example :
    Distinct address registry.workspaces
    × Distinct mac registry.workspaces
    × Distinct tap registry.workspaces
    × Distinct hostname registry.workspaces
validate-Distinct_example = validate-Distinct registry registry_valid

validate-HasSound_example :
    All
      (λ (e : Text × Workspace). HasSoundRepositories e.1 × HasSoundStorage e.1.storage)
      registry.workspaces
validate-HasSound_example = validate-HasSound registry registry_valid
