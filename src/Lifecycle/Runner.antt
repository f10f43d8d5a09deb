-- ===== src/Lifecycle/Runner.antt =====
-- `validate_runner`: what must hold of a Runner's files before a cold start.
use seter.Prelude.{
  ℕ, ◌≡◌, ◌↔◌, Bool, true, false, not, ◌&&◌, ◌||◌, Option, List, [], ◌∷◌, ◌++◌, retain, Result, err,
  ensure, context, for_each, ◌>>=◌, ◌>>◌, leb, eqb, arith,
}
use seter.Prelude.Eq.{◌==◌, nat_eq, list_eq, list_beq_iff}
use seter.Prelude.Text.{Text, text, starts_with}
use seter.Prelude.Text.Split.{split}
use seter.Prelude.Ipv4.{address_eq}
use seter.Registry.{RunnerIdentity, RunnerNetworkIdentity, storage_beq, storage_beq_iff}

-- `derive(PartialEq)` on the identity.
abbrev pub network_beq : RunnerNetworkIdentity → RunnerNetworkIdentity → Bool
network_beq n m =
    n.address == m.address
    && n.mac == m.mac
    && n.tap == m.tap
    && n.gateway == m.gateway
    && eqb n.prefix_length m.prefix_length

abbrev pub identity_beq : RunnerIdentity → RunnerIdentity → Bool
identity_beq i j =
    eqb i.version j.version
    && i.workspace == j.workspace
    && i.hostname == j.hostname
    && network_beq i.network j.network
    && i.proxy_url == j.proxy_url
    && i.ssh_user == j.ssh_user
    && i.guest_profile == j.guest_profile
    && i.development_ports == j.development_ports
    && (eqb i.resources.memory_mi_b j.resources.memory_mi_b
        && eqb i.resources.vcpu j.resources.vcpu)
    && storage_beq i.storage j.storage

network_beq_iff : (n m : RunnerNetworkIdentity) → (network_beq n m ≡ true) ↔ (n ≡ m)
network_beq_iff n m = ground (
  arith,
  address_eq.beq_iff n.address m.address,
  list_beq_iff n.mac m.mac,
  list_beq_iff n.tap m.tap,
  address_eq.beq_iff n.gateway m.gateway,
)

pub identity_beq_iff : (i j : RunnerIdentity) → (identity_beq i j ≡ true) ↔ (i ≡ j)
identity_beq_iff i j = ground (
  arith,
  list_beq_iff i.workspace j.workspace,
  list_beq_iff i.hostname j.hostname,
  network_beq_iff i.network j.network,
  list_beq_iff i.proxy_url j.proxy_url,
  list_beq_iff i.ssh_user j.ssh_user,
  list_beq_iff i.guest_profile j.guest_profile,
  list_beq_iff i.development_ports j.development_ports,
  storage_beq_iff i.storage j.storage,
)

-- The identity manifest as the file system and serde show it: a regular file has a length, and
-- contents that parse or do not.
pub data Manifest : Type 0 where
  missing not_regular : Manifest
  regular : ℕ → Option RunnerIdentity → Manifest

pub record RunnerFiles : Type 0 where
  pub exists : Text → Bool
  pub is_file : Text → Bool
  pub is_executable : Text → Bool
  pub manifest : Text → Manifest

pub data RunnerError : Type 0 where
  not_absolute outside_store missing_manifest irregular_manifest oversized_manifest invalid_manifest
        mismatch :
      RunnerError
  missing_helper not_executable : Text → RunnerError

-- `Path::starts_with`, by components.
abbrev pub components : Text → List Text
components path = retain (λ c. not (c == []) && not (c == text ".")) (split b'/' path)

abbrev pub in_store : Text → Bool
in_store path = starts_with_components (text "nix" ∷ text "store" ∷ []) (components path)
  where
    starts_with_components : List Text → List Text → Bool
    starts_with_components [] cs = true
    starts_with_components (p ∷ ps) [] = false
    starts_with_components (p ∷ ps) (c ∷ cs) = p == c && starts_with_components ps cs

abbrev pub runner_identity_file : Text
runner_identity_file = text "share/seter/identity.json"

abbrev pub max_runner_identity_bytes : ℕ
max_runner_identity_bytes = 65536

module _ (files : RunnerFiles) where
  unfoldable pub check_helper : Text → Text → Result RunnerError (Unit {0})
  check_helper runner helper = do
    let path = runner ++ (text "/bin/" ++ helper)
    ensure (files.is_file path) (missing_helper path)
    ensure (files.is_executable path) (not_executable path)

  unfoldable pub read_manifest : Manifest → Result RunnerError RunnerIdentity
  read_manifest missing = err missing_manifest
  read_manifest not_regular = err irregular_manifest
  read_manifest (regular len contents) = do
    ensure (leb len max_runner_identity_bytes) oversized_manifest
    context invalid_manifest contents

  -- `allow_non_store` is whether SETER_ALLOW_NON_STORE_RUNNER is set.
  unfoldable pub validate_runner : Bool → Text → RunnerIdentity → Result RunnerError (Unit {0})
  validate_runner allow_non_store runner expected = do
    ensure (starts_with (text "/") runner) not_absolute
    ensure (allow_non_store || in_store runner) outside_store
    for_each (text "microvm-run" ∷ text "microvm-shutdown" ∷ []) (check_helper runner)
    actual ← read_manifest (files.manifest (runner ++ (b'/' ∷ runner_identity_file)))
    ensure (identity_beq actual expected) mismatch
