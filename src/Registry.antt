-- ===== src/Registry.antt =====
-- The Workspace Registry that a host deployment writes (crates/seter-cli/src/registry.rs): its
-- records and their selectors. Parsing the JSON is the work of serde and enters as the value.
pub mod Errors
pub mod Url
pub mod Validate
pub mod Select
use seter.Prelude.{
  ℕ, ◌≡◌, ◌↔◌, Bool, true, false, ◌&&◌, Option, none, some, List, [], ◌∷◌, eqb, eqb_iff,
  if◌then◌else◌, arith,
}
use seter.Prelude.Eq.{Eq, ◌==◌, nat_eq, list_eq, list_beq_iff}
use seter.Prelude.Text.{Text}
use seter.Prelude.Ipv4.{Ipv4Addr}
use seter.Prelude.Map.{Map}

pub record RepositoryCredential : Type 0 where
  pub name : Text
  pub placeholder : Text

pub record Repository : Type 0 where
  pub local : Bool
  pub url : Option Text
  pub branch : Option Text
  pub checkout_name : Text
  pub credential : Option RepositoryCredential

pub record Volume : Type 0 where
  pub image : Text
  pub size_mi_b : ℕ

pub record Storage : Type 0 where
  pub project : Volume
  pub home : Volume
  pub nix_store : Volume

pub record RunnerNetworkIdentity : Type 0 where
  pub address : Ipv4Addr
  pub mac : Text
  pub tap : Text
  pub gateway : Ipv4Addr
  pub prefix_length : ℕ

pub record RunnerResourcesIdentity : Type 0 where
  pub memory_mi_b : ℕ
  pub vcpu : ℕ

-- `proxy` and `ssh` are records of one field each in the source.
pub record RunnerIdentity : Type 0 where
  pub version : ℕ
  pub workspace : Text
  pub hostname : Text
  pub network : RunnerNetworkIdentity
  pub proxy_url : Text
  pub ssh_user : Text
  pub guest_profile : Text
  pub development_ports : List ℕ
  pub resources : RunnerResourcesIdentity
  pub storage : Storage

pub record Runner : Type 0 where
  pub path : Text
  pub identity : RunnerIdentity

pub record Network : Type 0 where
  pub address : Ipv4Addr
  pub mac : Text
  pub tap : Text

pub record Resources : Type 0 where
  pub memory_mi_b : ℕ
  pub vcpu : ℕ
  pub cpu_quota_percent : ℕ

pub record Workspace : Type 0 where
  pub hostname : Text
  pub guest_profile : Text
  pub development_ports : List ℕ
  pub repositories : Map Repository
  pub default_repository : Option Text
  pub runner : Runner
  pub network : Network
  pub resources : Resources
  pub ssh_user : Text
  pub storage : Storage

pub record Registry : Type 0 where
  pub version : ℕ
  pub workspaces : Map Workspace

-- `derive(PartialEq)` on volumes and storage.
abbrev pub volume_beq : Volume → Volume → Bool
volume_beq v w = v.image == w.image && eqb v.size_mi_b w.size_mi_b

pub volume_beq_iff : (v w : Volume) → (volume_beq v w ≡ true) ↔ (v ≡ w)
volume_beq_iff v w = ground (arith, list_beq_iff v.image w.image)

instance abbrev pub volume_eq : Eq Volume
volume_eq = record { beq = volume_beq; beq_iff = volume_beq_iff }

abbrev pub storage_beq : Storage → Storage → Bool
storage_beq s t = s.project == t.project && s.home == t.home && s.nix_store == t.nix_store

pub storage_beq_iff : (s t : Storage) → (storage_beq s t ≡ true) ↔ (s ≡ t)
storage_beq_iff s t = ground (
  arith,
  volume_beq_iff s.project t.project,
  volume_beq_iff s.home t.home,
  volume_beq_iff s.nix_store t.nix_store,
)

instance abbrev pub storage_eq : Eq Storage
storage_eq = record { beq = storage_beq; beq_iff = storage_beq_iff }
